-- ===== src/Interrupt/RoundRobin.antt =====
-- The order in which the timer of src/kernel/interrupt.c gives the processor to the queued threads,
-- through `int_handler`, and whatever events the virtual timers send.
use pinion.Base.{
  arith, append_assoc, Ensures-mono, subst, sym, ap, ◌∙◌, refl, ℕ, zero, suc, ◌≡◌, ◌≢◌, Ensures,
  List, [], ◌∷◌, ◌++◌, length,
}
use pinion.Kernel.{Kernel, ts_running}
use pinion.Thread.Sched.Fifo.{IsSched}
use pinion.Interrupt.{timer_bits}
use pinion.Interrupt.Model.{requeued}
use pinion.Interrupt.Wakeups.Model.{Machine, signal, model_step, queue_of}
use pinion.Interrupt.Entry.Model.{
  Trap, clock, run_traps, Clocked, running_of, fired, signals, next_tick, model_trap, model_traps,
  AllTrapsPossible, Tracks,
}
use pinion.Interrupt.Entry.Follows.{run_traps-Tracks}

-- `n` ticks of the timer.
abbrev pub clocks : ℕ → List Trap
clocks zero = []
clocks (suc n) = clock ∷ clocks n

-- The entries of the first list stand in the second one, in the same order.
pub data Among : List ℕ → List ℕ → Type 0 where
  nothing : {zs : List ℕ} → Among [] zs
  later : {xs zs : List ℕ} {z : ℕ} → Among xs zs → Among xs (z ∷ zs)
  here : {xs zs : List ℕ} {z : ℕ} → Among xs zs → Among (z ∷ xs) (z ∷ zs)

Among-behind : (more xs zs : List ℕ) → Among xs zs → Among xs (more ++ zs)
Among-behind [] xs zs h = h
Among-behind (x ∷ more) xs zs h = later (Among-behind more xs zs h)

-- Events queue threads behind those that are queued, and change nothing for the running one.
record Longer (m n : Machine) : Type 0 where
  more : List ℕ
  queue : queue_of n ≡ queue_of m ++ more
  running : n.base.running ≡ m.base.running

append_none : (xs : List ℕ) → xs ++ [] ≡ xs
append_none [] = refl
append_none (x ∷ xs) = ap (λ r. x ∷ r) (append_none xs)

signal-Longer :
    (n : ℕ) (m : Machine) (ws : List ℕ) → m.waiters n ≡ ws → Longer m (model_step (signal n) m)
signal-Longer n m [] none =
    rw none (record { more = []; queue = sym (append_none m.base.queue); running = refl })
signal-Longer n m (w ∷ ws) some = rw some (record { more = w ∷ []; queue = refl; running = refl })

signals-Longer : (ns : List ℕ) (m : Machine) → Longer m (signals ns m)
signals-Longer [] m = record { more = []; queue = sym (append_none m.base.queue); running = refl }
signals-Longer (n ∷ ns) m =
    let first = signal-Longer n m (m.waiters n) refl in
    let rest = signals-Longer ns (model_step (signal n) m) in
    record {
      more = first.more ++ rest.more;
      queue =
          rest.queue
          ∙ ap (λ q. q ++ rest.more) first.queue
          ∙ append_assoc m.base.queue first.more rest.more;
      running = rest.running ∙ first.running;
    }

-- One tick in the machine while `a` is the first in the queue, in front of `qs`.
record Ticked (a : ℕ) (qs : List ℕ) (c d : Clocked) : Type 0 where
  more : List ℕ
  queue : queue_of d.machine ≡ qs ++ (more ++ running_of c ∷ [])
  running : running_of d ≡ a

clock-Ticked :
    (c : Clocked) (a : ℕ) (qs : List ℕ)
    → queue_of c.machine ≡ a ∷ qs
    → Ticked a qs c (model_trap clock c)
clock-Ticked c a qs e =
    let ns = fired 16 (timer_bits (next_tick c) c.freq) 0 in
    let l = signals-Longer ns c.machine in
    let q : (requeued (signals ns c.machine).base).queue
        ≡ a ∷ (qs ++ (l.more ++ running_of c ∷ [])) =
      ap (λ b. b ++ (signals ns c.machine).base.running ∷ []) (l.queue ∙ ap (λ b. b ++ l.more) e)
      ∙ ap (λ r. (a ∷ (qs ++ l.more)) ++ r ∷ []) l.running
      ∙ ap (λ b. a ∷ b) (append_assoc qs l.more (running_of c ∷ [])) in
    rw q (record { more = l.more; queue = refl; running = refl })

-- The ticks in the machine.
record Rotated (x t : ℕ) (xs ys : List ℕ) (d : Clocked) : Type 0 where
  behind : List ℕ
  kept : Among (t ∷ xs) behind
  queue : queue_of d.machine ≡ ys ++ behind
  running : running_of d ≡ x

clocks-Rotated :
    (c : Clocked) (x : ℕ) (xs ys : List ℕ)
    → queue_of c.machine ≡ xs ++ x ∷ ys
    → Rotated x (running_of c) xs ys (model_traps (clocks (suc (length xs))) c)
clocks-Rotated c x [] ys e =
    let h = clock-Ticked c x ys e in
    record {
      behind = h.more ++ running_of c ∷ [];
      kept = Among-behind h.more (running_of c ∷ []) (running_of c ∷ []) (here nothing);
      queue = h.queue;
      running = h.running;
    }
clocks-Rotated c x (a ∷ bs) ys e =
    let h = clock-Ticked c a (bs ++ x ∷ ys) e in
    let t = running_of c in
    let d = model_trap clock c in
    let zs = h.more ++ t ∷ [] in
    let ih = clocks-Rotated d x bs (ys ++ zs) (h.queue ∙ append_assoc bs (x ∷ ys) zs) in
    record {
      behind = zs ++ ih.behind;
      kept =
          subst (λ q. Among (t ∷ a ∷ bs) q) (sym (append_assoc h.more (t ∷ []) ih.behind))
            (Among-behind h.more (t ∷ a ∷ bs) (t ∷ ih.behind)
              (here (subst (λ b. Among (b ∷ bs) ih.behind) h.running ih.kept)));
      queue = ih.queue ∙ append_assoc ys zs ih.behind;
      running = ih.running;
    }

clocks_possible : (n : ℕ) (c : Clocked) → c.freq ≢ 0 → AllTrapsPossible (clocks n) c
clocks_possible zero c h = tt
clocks_possible (suc n) c h = (h, clocks_possible n (model_trap clock c) h)

-- `x` runs, and the queue is `ys` and then others, `ts` among them in their order.
pub record Turn (x : ℕ) (ys ts : List ℕ) (r : ℕ) (l : Kernel) : Type 0 where
  pub returned : r ≡ x
  pub active : l.active_thread ≡ x
  pub state : (l.mem x).state ≡ ts_running
  pub behind : List ℕ
  pub kept : Among ts behind
  pub sched : IsSched l (ys ++ behind)

-- In the state that the machine `c` describes, with a timer frequency, let thread `t` run and the
-- scheduler's queue be `xs`, then `x`, then `ys`. After as many timer interrupts as `xs` has threads,
-- and one more, each taken by `int_handler` in the thread that runs then, thread `x` runs, and the queue
-- starts with `ys`; behind them wait, among the threads that the virtual timers' events have woken up
-- and in this order, `t` and those of `xs`. So every queued thread runs within as many ticks as there
-- were threads up to it, whatever events the ticks send.
pub turns-Turn :
    (c : Clocked) (k : Kernel) (x : ℕ) (xs ys : List ℕ)
    → c.freq ≢ 0
    → queue_of c.machine ≡ xs ++ x ∷ ys
    → Tracks c (running_of c) k
    → Ensures
        (run_traps (clocks (suc (length xs))) (running_of c) k)
        (Turn x ys (running_of c ∷ xs))
turns-Turn c k x xs ys some e h =
    let n = suc (length xs) in
    let d = clocks-Rotated c x xs ys e in
    Ensures-mono _ _ (run_traps (clocks n) (running_of c) k)
      (run_traps-Tracks (clocks n) c k (clocks_possible n c some) h)
      (λ r l j. record {
        returned = j.running ∙ d.running;
        active = j.sane.active ∙ d.running;
        state = ground (arith, j.sane.running x, d.running);
        behind = d.behind;
        kept = d.kept;
        sched = subst (λ q. IsSched l q) d.queue j.sane.waiting.sched;
      })
