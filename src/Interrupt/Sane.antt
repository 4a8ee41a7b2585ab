-- ===== src/Interrupt/Sane.antt =====
-- The steps of the scheduling in src/kernel/interrupt.c and src/kernel/kcall.c on the states of all
-- threads.
use pinion.Base.{
  ℕ, ◌≡◌, refl, sym, ap, ◌∙◌, subst, ◌≢◌, arith, List, [], ◌∷◌, ◌++◌, ◌∈◌, ◌∉◌, true, false, has,
  has-append, length-append, update, length, ==_ne, ==_refl, Ensures, Ensures-mono, ◌==◌,
}
use pinion.Vm.{null}
use pinion.Kernel.{Thread, Kernel, ts_queued, ts_running, ts_paused}
use pinion.Thread.Links.{IsQueue-same}
use pinion.Thread.Sched.Fifo.{IsSched, next_of}
use pinion.Thread.Requeue.{Requeued}
use pinion.Kcall.Threads.Roundtrip.{Paused, Resumed}
use pinion.Interrupt.{switch}
use pinion.Interrupt.Switch.{Runs, switch-head}
use pinion.Interrupt.Model.{
  pause, resume, back, Model, run_next, requeued, model_event, Waiting, Sane, Idle,
}
use pinion.Interrupt.States.{has-erase-Distinct, state_test, states, head_queued, pred_same}

-- The running thread is not in the queue.
pub running-not-mem : (m : Model) (k : Kernel) → Sane m k → m.running ∉ m.queue
running-not-mem m k s =
    ground (arith, s.running m.running, ==_refl m.running, s.waiting.queued m.running)

pub running_state : (m : Model) (k : Kernel) → Sane m k → (k.mem m.running).state ≡ ts_running
running_state m k s = ground (arith, s.running m.running, ==_refl m.running)

queued-not-paused :
    (m : Model) (k : Kernel) (x : ℕ) → Waiting m k → x ∈ m.queue → m.paused x ≡ false
queued-not-paused m k x w i = ground (arith, w.queued x, w.paused x, i)

-- The first of the queue runs.
switch-Sane :
    (m : Model) (x : ℕ) (xs : List ℕ) (k : Kernel)
    → m.queue ≡ x ∷ xs
    → Idle m k
    → Ensures (switch k) (λ r l. (r ≡ x) × Sane (run_next (x ∷ xs) m) l)
switch-Sane m x xs k e s =
    let q : IsSched k (x ∷ xs) = subst (λ ys. IsSched k ys) e s.waiting.sched in
    Ensures-mono (Runs k x xs) _ (switch k) (switch-head k x xs q) (λ r l h.
      let test = λ (c p : ℕ).
        state_test (states k) (states l) x ts_running c p h.2
          (λ o ne. ap (λ (t : Thread). t.state) (h.4 o ne)) in
      (
        h.0,
        record {
          waiting = record {
            table = h.5 ∙ s.waiting.table;
            sched = h.3;
            queued = λ p.
                test ts_queued p
                ∙ head_queued p x xs (s.waiting.queued p ∙ ap (λ ys. has p ys) e) q.distinct.0;
            paused = λ p.
                test ts_paused p
                ∙ pred_same m.paused p x false (s.waiting.paused p) (
                    queued-not-paused m k x s.waiting
                      (subst (λ ys. x ∈ ys) (sym e) (ground arith)));
          };
          active = h.1;
          ne_null = q.chain.1;
          running = λ p. test ts_running p ∙ ground (arith, s.running p);
        },
      ))

-- The running thread queues again: it is at the end, and none runs.
pub requeued-Idle :
    (m : Model) (k l : Kernel) → Sane m k → Requeued k m.running m.queue l → Idle (requeued m) l
requeued-Idle m k l s h =
    let t = m.running in
    let test = λ (c p : ℕ). state_test (states k) (states l) t ts_queued c p h.state h.kept in
    let here = running_state m k s in
    record {
      waiting = record {
        table = h.table ∙ s.waiting.table;
        sched = h.sched;
        queued = λ p.
            test ts_queued p ∙ ground (arith, s.waiting.queued p, has-append p m.queue (t ∷ []));
        paused = λ p.
            test ts_paused p
            ∙ pred_same m.paused p t false (s.waiting.paused p)
                (ground (arith, s.waiting.paused t, here));
      };
      active = h.active;
      running = λ p. test ts_running p ∙ ground (arith, s.running p);
    }

-- After the running thread has queued again, the first of the queue runs.
pub back-Sane :
    (m : Model) (ys : List ℕ) (k : Kernel)
    → m.queue ≡ ys
    → length ys ≢ 0
    → Idle m k
    → Ensures (back k) (λ r l. (r ≡ (run_next ys m).running) × Sane (run_next ys m) l)
back-Sane m [] k e some s = absurd (some refl)
back-Sane m (x ∷ xs) k e some s =
    let none : (k.active_thread == null) ≡ true = ap (λ (a : ℕ). a == null) s.active in
    rw none (switch-Sane m x xs k e s)

pub stay-Sane :
    (m : Model) (k : Kernel) → Sane m k → Ensures (back k) (λ r l. (r ≡ m.running) × Sane m l)
stay-Sane m k s =
    let some : (k.active_thread == null) ≡ false = rw s.active (==_ne m.running null s.ne_null) in
    rw some (s.active, s)

pub length-snoc : (xs : List ℕ) (a : ℕ) → length (xs ++ a ∷ []) ≢ 0
length-snoc xs a e = omega (arith, length-append xs (a ∷ []))

-- `ebx` of the running thread, which a kernel call sets first.
abbrev pub with_ebx : ℕ → ℕ → Kernel → Kernel
with_ebx t arg k = record k { mem = update k.mem t (record (k.mem t) { ebx = arg }) }

with_ebx-state : (t arg : ℕ) (k : Kernel) (p : ℕ) → states (with_ebx t arg k) p ≡ states k p
with_ebx-state t arg k p = ground arith

pub with_ebx-Sane :
    (m : Model) (k : Kernel) (arg : ℕ) → Sane m k → Sane m (with_ebx m.running arg k)
with_ebx-Sane m k arg s =
    let kept = λ (c p : ℕ). ap (λ (a : ℕ). a == c) (with_ebx-state m.running arg k p) in
    record {
      waiting = record {
        table = s.waiting.table;
        sched =
            IsQueue-same (next_of k) _ k.sched_head k.sched_tail m.queue (λ a i. ground arith)
              s.waiting.sched;
        queued = λ p. kept ts_queued p ∙ s.waiting.queued p;
        paused = λ p. kept ts_paused p ∙ s.waiting.paused p;
      };
      active = s.active;
      ne_null = s.ne_null;
      running = λ p. kept ts_running p ∙ s.running p;
    }

-- The running thread pauses itself: none runs.
pub paused-Idle :
    (m : Model) (k l : Kernel)
    → Sane m k
    → l.active_thread ≡ null
    → l.thread_table ≡ k.thread_table
    → IsSched l m.queue
    → (l.mem m.running).state ≡ ts_paused
    → ((p : ℕ) → p ≢ m.running → (l.mem p).state ≡ (k.mem p).state)
    → Idle (record m { paused = update m.paused m.running true }) l
paused-Idle m k l s none table q state kept =
    let t = m.running in
    let test = λ (c p : ℕ). state_test (states k) (states l) t ts_paused c p state kept in
    let out = running-not-mem m k s in
    record {
      waiting = record {
        table = table ∙ s.waiting.table;
        sched = q;
        queued = λ p.
            test ts_queued p ∙ pred_same (λ o. has o m.queue) p t false (s.waiting.queued p) out;
        paused = λ p. test ts_paused p ∙ ground (arith, s.waiting.paused p);
      };
      active = none;
      running = λ p. test ts_running p ∙ ground (arith, s.running p);
    }

apart_of : (m : Model) (k : Kernel) (a : ℕ) → Sane m k → states k a ≢ ts_running → a ≢ m.running
apart_of m k a s n e = n (ap (states k) e ∙ running_state m k s)

-- A queued thread is paused.
pub Paused-Sane :
    (m : Model) (k l : Kernel) (id : ℕ)
    → Sane m k
    → m.table id ∈ m.queue
    → Paused k m.running (m.table id) m.queue l
    → Sane (model_event (pause id) m) l
Paused-Sane m k l id s i h =
    let a = m.table id in
    let test = λ (c p : ℕ). state_test (states k) (states l) a ts_paused c p h.state h.kept in
    let apart : a ≢ m.running = apart_of m k a s (
      let st : states k a ≡ ts_queued = ground (arith, s.waiting.queued a, i) in
      rw st (omega arith)) in
    record {
      waiting = record {
        table = h.table ∙ s.waiting.table;
        sched = h.sched;
        queued = λ p.
            test ts_queued p
            ∙ ground (
              arith,
              s.waiting.queued p,
              has-erase-Distinct p a m.queue s.waiting.sched.distinct,
            );
        paused = λ p. test ts_paused p ∙ ground (arith, s.waiting.paused p);
      };
      active = h.active ∙ s.active;
      ne_null = s.ne_null;
      running = λ p.
          test ts_running p
          ∙ pred_same (λ o. o == m.running) p a false (s.running p) (==_ne a m.running apart);
    }

-- A paused thread is queued.
pub Resumed-Sane :
    (m : Model) (k l : Kernel) (id : ℕ)
    → Sane m k
    → m.paused (m.table id) ≡ true
    → Resumed k m.running (m.table id) m.queue l
    → Sane (model_event (resume id) m) l
Resumed-Sane m k l id s i h =
    let a = m.table id in
    let test = λ (c p : ℕ). state_test (states k) (states l) a ts_queued c p h.state h.kept in
    let apart : a ≢ m.running = apart_of m k a s (
      let st : states k a ≡ ts_paused = ground (arith, s.waiting.paused a, i) in
      rw st (omega arith)) in
    record {
      waiting = record {
        table = h.table ∙ s.waiting.table;
        sched = h.sched;
        queued = λ p.
            test ts_queued p ∙ ground (arith, s.waiting.queued p, has-append p m.queue (a ∷ []));
        paused = λ p. test ts_paused p ∙ ground (arith, s.waiting.paused p);
      };
      active = h.active ∙ s.active;
      ne_null = s.ne_null;
      running = λ p.
          test ts_running p
          ∙ pred_same (λ o. o == m.running) p a false (s.running p) (==_ne a m.running apart);
    }
