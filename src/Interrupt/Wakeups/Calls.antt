-- ===== src/Interrupt/Wakeups/Calls.antt =====
-- KCALL_WAIT of src/kernel/kcall.c, up to the next thread that runs, against the machine of
-- Interrupt.Wakeups.Model.
use pinion.Base.{
  ℕ, ◌≡◌, refl, sym, ap, ◌∙◌, ◌≢◌, ◌<◌, arith, inl, inr, true, false, length, Ensures, Ensures-and,
  Ensures-bind, Ensures-mono, ==_ne, ◌==◌, ◌>>◌, Bool-cases, Run, and_then,
}
use pinion.Vm.{null}
use pinion.Kernel.{Kernel, thread_count, ev_count}
use pinion.Thread.Clock.{SameClock, SameClock-trans, SameClock-mem}
use pinion.Thread.Requeue.{Requeued, requeue-Requeued}
use pinion.Thread.Event.{event_wait}
use pinion.Thread.Event.Fifo.{Names, Waits, event_wait-enqueue}
use pinion.Thread.Event.Latch.{event_wait-pending}
use pinion.Thread.Event.Kept.{SameEvents, requeue-SameEvents}
use pinion.Thread.Requeue.{requeue}
use pinion.Kcall.Threads.{set_eax, kcall_wait}
use pinion.Interrupt.Model.{Model, run_next, requeued, back, Sane, Idle}
use pinion.Interrupt.Sane.{running-not-mem, requeued-Idle, back-Sane, length-snoc}
use pinion.Interrupt.Wakeups.Model.{wait, Machine, waited, model_step, StepPossible, Attended}
use pinion.Interrupt.Wakeups.Scheduling.{SameEvents-Attended, back-SameEvents, not_waiting}
use pinion.Interrupt.Wakeups.Wait.{
  kcall_wait-steps, with_eax, set_eax-steps, with_eax-Idle, with_eax-SameEvents, Waits-Idle,
  Waits-Attended, running-not-waiter,
}

-- The running thread is `m`'s, and the kernel is in the state that `m` describes.
abbrev pub FollowsAll : Machine → ℕ → Kernel → Type 0
FollowsAll m r l = (r ≡ m.base.running) × Sane m.base l × Attended m l

-- Besides, the timer and the handlers are as in `k`.
abbrev pub FollowsFrom : Kernel → Machine → ℕ → Kernel → Type 0
FollowsFrom k m r l = FollowsAll m r l × SameClock k l

pub from_clock :
    (k l : Kernel) (m : Machine) (r : Run Kernel ℕ)
    → SameClock k l
    → Ensures r (FollowsFrom l m)
    → Ensures r (FollowsFrom k m)
from_clock k l m r c h =
    Ensures-mono _ (FollowsFrom k m) r h (λ _ x j. (j.0, SameClock-trans k l x c j.1))

-- The state after a call that leaves no thread running.
abbrev Leaves : Kernel → Machine → Model → Kernel → Type 0
Leaves k m b l = Idle b l × Attended m l × SameClock k l

-- No thread runs: the first of the queue does.
pub back-FollowsAll :
    (m : Machine) (b : Model) (k : Kernel)
    → length b.queue ≢ 0
    → Idle b k
    → Attended m k
    → Ensures (back k) (FollowsFrom k (record m { base = run_next b.queue b }))
back-FollowsAll m b k some s a =
    Ensures-mono _ _ (back k)
      (Ensures-and _ (λ _. SameEvents k) (back k) (back-Sane b b.queue k refl some s)
        (back-SameEvents b k b.queue refl some s))
      (λ r l h. ((h.0.0, h.0.1, SameEvents-Attended m (run_next b.queue b) k l h.1 a), h.1.clock))

pub stay-FollowsAll :
    (m : Machine) (k : Kernel) → Sane m.base k → Attended m k → Ensures (back k) (FollowsFrom k m)
stay-FollowsAll m k s a =
    let some : (k.active_thread == null) ≡ false =
      rw s.active (==_ne m.base.running null s.ne_null) in
    rw some ((s.active, s, a), SameClock-mem k k refl refl refl refl refl refl refl)

-- The result of a call is put into `eax`.
eax_after :
    (k : Kernel) (m : Machine) (b : Model) (t : ℕ) (r : Run Kernel ℕ)
    → t ≢ null
    → Ensures r (λ _. Leaves k m b)
    → Ensures (and_then r (set_eax t)) (λ _. Leaves k m b)
eax_after k m b t r n h =
    Ensures-bind (λ _. Leaves k m b) _ r _ h
      (λ v l g. rw (set_eax-steps l t v n) (
        with_eax-Idle b l t v g.0,
        SameEvents-Attended m m.base l (with_eax t v l) (with_eax-SameEvents l t v) g.1,
        SameClock-trans k l (with_eax t v l) g.2 (with_eax-SameEvents l t v).clock,
      ))

-- The running thread's own ID.
own-Names :
    (m : Machine) (k : Kernel)
    → Sane m.base k
    → Attended m k
    → m.ids m.base.running < thread_count
    → m.base.table (m.ids m.base.running) ≡ m.base.running
    → Names k (k.mem m.base.running).id m.base.running
own-Names m k s a small e = rw (a.ids m.base.running) (record {
  valid = small;
  entry = ap (λ (f : ℕ → ℕ). f (m.ids m.base.running)) s.waiting.table ∙ e;
  ne_null = s.ne_null;
})

wait_pending-Idle :
    (m : Machine) (k : Kernel) (n id : ℕ)
    → Sane m.base k
    → Attended m k
    → Names k id m.base.running
    → n < ev_count
    → m.pending n ≡ true
    → Ensures (event_wait id n k) (λ _. Leaves k m (requeued m.base))
wait_pending-Idle m k n id s a v small pending =
    let b = m.base in
    let t = b.running in
    let set : k.irqstate n ≢ 0 = (let test = a.pending n in ground (arith, test, pending)) in
    rw (event_wait-pending k id n t v small set) (
      Ensures-bind (λ _ l. Requeued k t b.queue l × SameEvents k l) _ (requeue t k) _
        (Ensures-and _ _ (requeue t k)
          (requeue-Requeued k t b.queue s.ne_null (running-not-mem b k s) s.waiting.sched)
          (requeue-SameEvents k t s.ne_null (not_waiting b k s)))
        (λ _ l h. (requeued-Idle b k l s h.0, SameEvents-Attended m b k l h.1 a, h.1.clock)))

wait_queue-Idle :
    (m : Machine) (k : Kernel) (n id : ℕ)
    → Sane m.base k
    → Attended m k
    → Names k id m.base.running
    → n < ev_count
    → m.pending n ≡ false
    → Ensures (event_wait id n k) (λ _. Leaves k (waited n m) m.base)
wait_queue-Idle m k n id s a v small pending =
    let b = m.base in
    let t = b.running in
    let clear : k.irqstate n ≡ 0 = (let test = a.pending n in ground (arith, test, pending)) in
    Ensures-mono (λ r l. (r ≡ 0) × (l.active_thread ≡ null) × Waits k t n (m.waiters n) b.queue l)
      (λ _. Leaves k (waited n m) b) (event_wait id n k)
      (event_wait-enqueue k id n t (m.waiters n) b.queue v small clear
        (running-not-waiter m k n a s small) (a.queues n small) s.waiting.sched)
      (λ r l h. (
        Waits-Idle b k l n (m.waiters n) s h.1 h.2,
        Waits-Attended m k l n a s small h.2,
        h.2.clock,
      ))

pub wait-FollowsAll :
    (m : Machine) (k : Kernel) (n : ℕ)
    → StepPossible (wait n) m
    → Sane m.base k
    → Attended m k
    → (k.mem m.base.running).ebx ≡ n
    → Ensures ((kcall_wait m.base.running >> back) k) (FollowsFrom k (model_step (wait n) m))
wait-FollowsAll m k n p s a e =
    let b = m.base in
    let t = b.running in
    let id = (k.mem t).id in
    let v : Names k id t = own-Names m k s a p.1 p.2 in
    rw (kcall_wait-steps k t n s.ne_null e) (elim (Bool-cases (m.pending n)) [
      | inl set ↦ rw set (
          Ensures-bind (λ _. Leaves k m (requeued b)) _ _ _
            (eax_after k m (requeued b) t (event_wait id n k) s.ne_null
              (wait_pending-Idle m k n id s a v p.0 set))
            (λ _ l h.
              from_clock k l _ (back l) h.2
                (back-FollowsAll m (requeued b) l (length-snoc b.queue t) h.0 h.1)))
      | inr clear ↦
          let some : length b.queue ≢ 0 = elim (p.3) [
            | inl set ↦ absurd (let both : true ≡ false = sym set ∙ clear in ground (arith, both))
            | inr full ↦ full
          ] in
          rw clear (
            Ensures-bind (λ _. Leaves k (waited n m) b) _ _ _
              (eax_after k (waited n m) b t (event_wait id n k) s.ne_null
                (wait_queue-Idle m k n id s a v p.0 clear))
              (λ _ l h.
                from_clock k l _ (back l) h.2 (back-FollowsAll (waited n m) b l some h.0 h.1)))
    ])
