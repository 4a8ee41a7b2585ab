-- ===== src/Interrupt/Wakeups/Follows.antt =====
-- The scheduling of src/kernel/interrupt.c and src/kernel/kcall.c with the waits and wake-ups of
-- src/kernel/thread.c, against the machine of Interrupt.Wakeups.Model.
use pinion.Base.{
  ℕ, ◌≡◌, refl, sym, subst, ◌<◌, arith, List, [], ◌∷◌, ◌∈◌, true, false, Ensures, Ensures-and,
  Ensures-bind, Ensures-mono, ◌>>◌,
}
use pinion.Kernel.{Kernel, ev_count, minus_one}
use pinion.Thread.Clock.{SameClock, SameClock-trans}
use pinion.Thread.Event.{event_send}
use pinion.Thread.Event.Fifo.{IsWaiting}
use pinion.Thread.Event.Latch.{
  Woken, Latched, event_send-wake, send_unheard, irqstate_after, latch-SameClock,
}
use pinion.Thread.Event.Kept.{SameEvents}
use pinion.Kcall.Threads.{kcall_wait, kcall_reset}
use pinion.Interrupt.Model.{back, perform_event, model_event, Sane}
use pinion.Interrupt.Sane.{with_ebx, with_ebx-Sane}
use pinion.Interrupt.Follows.{Follows, call_with-steps, perform_event-Follows}
use pinion.Interrupt.Wakeups.Model.{
  Step, does, wait, signal, reset, perform_step, run_steps, Machine, woken, set_pending, model_step,
  model_steps, StepPossible, AllStepsPossible, Attended,
}
use pinion.Interrupt.Wakeups.Scheduling.{
  SameEvents-Attended, with_ebx-SameEvents, perform_event-SameEvents,
}
use pinion.Interrupt.Wakeups.Wait.{with_eax, with_eax-Sane, with_eax-SameEvents}
use pinion.Interrupt.Wakeups.Signal.{
  waiter-not-queued, Woken-Sane, Woken-Attended, Controlled-Sane, Controlled-SameClock,
  Latched-Sane, Latched-Attended, kcall_reset-Controlled, Reset-Attended,
}
use pinion.Interrupt.Wakeups.Calls.{
  FollowsAll, FollowsFrom, from_clock, stay-FollowsAll, wait-FollowsAll,
}

-- `event_send` alone.
pub event_send-Attended :
    (m : Machine) (k : Kernel) (n : ℕ) (xs : List ℕ)
    → m.waiters n ≡ xs
    → n < ev_count
    → Sane m.base k
    → Attended m k
    → Ensures (event_send minus_one n k) (λ _ l.
      Sane (woken n xs m).base l × Attended (set_pending n true (woken n xs m)) l × SameClock k l)
event_send-Attended m k n [] e small s a =
    Ensures-mono (λ _ l. Latched n k l) _ (event_send minus_one n k)
      (send_unheard k minus_one n small (subst (λ xs. IsWaiting k n xs) e (a.queues n small)))
      (λ _ l h.
        (Latched-Sane m.base n k l h s, Latched-Attended m n k l h a, latch-SameClock n k l h))
event_send-Attended m k n (x ∷ ts) e small s a =
    let b = m.base in
    let i : x ∈ m.waiters n = subst (λ xs. x ∈ xs) (sym e) (ground arith) in
    let waits = (a.members n x small i).0 in
    Ensures-mono
      (λ r l. (r ≡ 0) × Woken k x n ts b.queue l × (l.irqstate ≡ irqstate_after n k.irqstate)) _
      (event_send minus_one n k)
      (event_send-wake k minus_one n x ts b.queue small (ground (arith, waits))
        (waiter-not-queued m k n x a s small i)
        (subst (λ xs. IsWaiting k n xs) e (a.queues n small)) s.waiting.sched)
      (λ _ l h. (
        Woken-Sane b k l n x ts s waits h.1,
        Woken-Attended m k l n x ts a small e h.1 h.2,
        h.1.clock,
      ))

signal-FollowsAll :
    (m : Machine) (k : Kernel) (n : ℕ)
    → n < ev_count
    → Sane m.base k
    → Attended m k
    → Ensures ((event_send minus_one n >> back) k) (FollowsFrom k (model_step (signal n) m))
signal-FollowsAll m k n small s a =
    let m' = model_step (signal n) m in
    Ensures-bind (λ _ l. Sane m'.base l × Attended m' l × SameClock k l) _
      (event_send minus_one n k) _ (event_send-Attended m k n (m.waiters n) refl small s a)
      (λ _ l h. from_clock k l m' (back l) h.2 (stay-FollowsAll m' l h.0 h.1))

reset-FollowsAll :
    (m : Machine) (k : Kernel) (n : ℕ)
    → Sane m.base k
    → Attended m k
    → (k.mem m.base.running).ebx ≡ n
    → Ensures ((kcall_reset m.base.running >> back) k) (FollowsFrom k (model_step (reset n) m))
reset-FollowsAll m k n s a e =
    let t = m.base.running in
    let k' = with_eax t 0 k in
    let m' = set_pending n false m in
    Ensures-bind _ _ (kcall_reset t k) _ (kcall_reset-Controlled k t n s.ne_null e) (λ _ l h.
      from_clock k l m' (back l)
        (SameClock-trans k k' l (with_eax-SameEvents k t 0).clock (Controlled-SameClock k' l h.0))
        (stay-FollowsAll m' l (Controlled-Sane m.base k' l h.0 (with_eax-Sane m.base k t 0 s)) (
          Reset-Attended m n k' l h.0 h.1
            (SameEvents-Attended m m.base k k' (with_eax-SameEvents k t 0) a))))

pub perform_step-FollowsAll :
    (st : Step) (m : Machine) (k : Kernel)
    → StepPossible st m
    → Sane m.base k
    → Attended m k
    → Ensures (perform_step st m.base.running k) (FollowsFrom k (model_step st m))
unfolding perform_step
perform_step-FollowsAll (does e) m k p s a =
    Ensures-mono _ _ (perform_event e m.base.running k)
      (Ensures-and (Follows (model_event e m.base)) (λ _. SameEvents k)
        (perform_event e m.base.running k) (perform_event-Follows e m.base k p s)
        (perform_event-SameEvents e m.base k p s))
      (λ r l h. ((h.0.0, h.0.1, SameEvents-Attended m (model_event e m.base) k l h.1 a), h.1.clock))
perform_step-FollowsAll (wait n) m k p s a =
    let t = m.base.running in
    rw (call_with-steps kcall_wait k t n s.ne_null) (
      from_clock k (with_ebx t n k) _ _ (with_ebx-SameEvents k t n).clock (
        wait-FollowsAll m (with_ebx t n k) n p (with_ebx-Sane m.base k n s)
          (SameEvents-Attended m m.base k (with_ebx t n k) (with_ebx-SameEvents k t n) a)
          (ground arith)))
perform_step-FollowsAll (signal n) m k p s a = signal-FollowsAll m k n p s a
perform_step-FollowsAll (reset n) m k p s a =
    let t = m.base.running in
    rw (call_with-steps kcall_reset k t n s.ne_null) (
      from_clock k (with_ebx t n k) _ _ (with_ebx-SameEvents k t n).clock (
        reset-FollowsAll m (with_ebx t n k) n (with_ebx-Sane m.base k n s)
          (SameEvents-Attended m m.base k (with_ebx t n k) (with_ebx-SameEvents k t n) a)
          (ground arith)))

-- From a state in which just the active thread is in TS_RUNNING, just the threads of the scheduler's
-- queue are in TS_QUEUED, and the threads of each event's queue wait for that event, any sequence of
-- ticks, yields, pauses and resumes (those of queued, of running and of paused threads, as in
-- Interrupt.Model), of waits for valid events, of events that are sent, and of events that are reset,
-- ends in such a state again: with the thread running, the scheduler's and the events' queues in the
-- order, the threads paused and the events pending that the same steps give in the machine. A thread
-- waits only with an ID that names it, and while another one is queued unless the event is pending.
pub run_steps-FollowsAll :
    (ss : List Step) (m : Machine) (k : Kernel)
    → AllStepsPossible ss m
    → Sane m.base k
    → Attended m k
    → Ensures (run_steps ss m.base.running k) (FollowsAll (model_steps ss m))
unfolding run_steps
run_steps-FollowsAll [] m k p s a = (refl, s, a)
run_steps-FollowsAll (st ∷ ss) m k p s a =
    Ensures-bind (FollowsFrom k (model_step st m)) _ (perform_step st m.base.running k) _
      (perform_step-FollowsAll st m k p.0 s a)
      (λ r l h.
        subst (λ t. Ensures (run_steps ss t l) (FollowsAll (model_steps ss (model_step st m))))
          (sym h.0.0) (run_steps-FollowsAll ss (model_step st m) l p.1 h.0.1 h.0.2))
