-- ===== src/Interrupt/Wakeups/Scheduling.antt =====
-- The events of Interrupt.Model leave those that wait for an event alone.
use pinion.Base.{
  ℕ, ◌≡◌, refl, sym, ap, ◌∙◌, subst, ◌≢◌, arith, List, [], ◌∷◌, ◌∈◌, ◌∉◌, true, false, length,
  Ensures, Ensures-and, Ensures-bind, Ensures-mono, update, ==_ne, ◌==◌, Run, and_then,
}
use pinion.Vm.{null}
use pinion.Kernel.{Kernel, minus_one, ts_waiting, ts_queued, ts_paused}
use pinion.Thread.Links.{IsQueue-same}
use pinion.Thread.Sched.Fifo.{IsSched}
use pinion.Thread.Requeue.{Requeued, requeue-Requeued}
use pinion.Thread.Event.Fifo.{evlink_of}
use pinion.Thread.Event.Kept.{SameEvents, SameEvents-trans, requeue-SameEvents}
use pinion.Kcall.Threads.{kcall_yield, kcall_pause, kcall_resume}
use pinion.Kcall.Threads.Rest.{Rests, kcall_pause-Rests}
use pinion.Kcall.Threads.Roundtrip.{Paused, Resumed, kcall_pause-Paused, kcall_resume-Resumed}
use pinion.Interrupt.{preempt}
use pinion.Interrupt.Switch.{preempt-Requeued}
use pinion.Interrupt.Model.{
  Event, tick, yield, rest, pause, resume, back, perform_event, Model, requeued, model_event,
  Possible, Sane, Idle,
}
use pinion.Interrupt.States.{states}
use pinion.Interrupt.Sane.{
  running-not-mem, running_state, requeued-Idle, length-snoc, with_ebx, with_ebx-Sane, paused-Idle,
  Paused-Sane, Resumed-Sane,
}
use pinion.Interrupt.Follows.{call_with-steps, call-Names}
use pinion.Interrupt.Wakeups.Kept.{
  kcall_pause-queued, kcall_resume-paused, kcall_pause_self, preempt-SameEvents, switch-SameEvents,
}
use pinion.Interrupt.Wakeups.Model.{Machine, Attended}

-- What `SameEvents` keeps.
pub SameEvents-Attended :
    (m : Machine) (b : Model) (k l : Kernel)
    → SameEvents k l
    → Attended m k
    → Attended (record m { base = b }) l
SameEvents-Attended m b k l h a = record {
  queues = λ n small. rw h.evqueue (
      IsQueue-same (evlink_of k) (evlink_of l) _ _ (m.waiters n) (λ p i. h.link p)
        (a.queues n small));
  members =
      λ n p small i. (h.waiting p (a.members n p small i).0, h.event p ∙ (a.members n p small i).1);
  pending = λ n. ap (λ (f : ℕ → ℕ). f n == 0) h.irqstate ∙ a.pending n;
  ids = λ p. h.id p ∙ a.ids p;
}

-- No thread is active, and another one runs next.
pub back-SameEvents :
    (m : Model) (k : Kernel) (ys : List ℕ)
    → m.queue ≡ ys
    → length ys ≢ 0
    → Idle m k
    → Ensures (back k) (λ _. SameEvents k)
back-SameEvents m k [] e some s = absurd (some refl)
back-SameEvents m k (x ∷ xs) e some s =
    let none : (k.active_thread == null) ≡ true = ap (λ (a : ℕ). a == null) s.active in
    let i : x ∈ m.queue = subst (λ zs. x ∈ zs) (sym e) (ground arith) in
    rw none (
      switch-SameEvents k x xs (subst (λ zs. IsSched k zs) e s.waiting.sched)
        (ground (arith, s.waiting.queued x, i)))

pub then_back :
    (k : Kernel) (m : Model) (r : Run Kernel (Unit {0}))
    → length m.queue ≢ 0
    → Ensures r (λ _ l. Idle m l)
    → Ensures r (λ _. SameEvents k)
    → Ensures (and_then r (λ _. back)) (λ _. SameEvents k)
then_back k m r some f g =
    Ensures-bind (λ _ l. Idle m l × SameEvents k l) _ r _ (Ensures-and _ _ r f g)
      (λ _ l h.
        Ensures-mono (λ _. SameEvents l) _ (back l) (back-SameEvents m l m.queue refl some h.0)
          (λ _ x j. SameEvents-trans k l x h.1 j))

pub then_stay :
    (k : Kernel) (m : Model) (r : Run Kernel (Unit {0}))
    → Ensures r (λ _ l. Sane m l)
    → Ensures r (λ _. SameEvents k)
    → Ensures (and_then r (λ _. back)) (λ _. SameEvents k)
then_stay k m r f g =
    Ensures-bind (λ _ l. Sane m l × SameEvents k l) _ r _ (Ensures-and _ _ r f g)
      (λ _ l h.
        let some : (l.active_thread == null) ≡ false =
          rw (h.0).active (==_ne m.running null (h.0).ne_null) in
        rw some (h.1))

pub with_ebx-SameEvents : (k : Kernel) (t arg : ℕ) → SameEvents k (with_ebx t arg k)
with_ebx-SameEvents k t arg = record {
  evqueue = refl;
  irqstate = refl;
  link = λ p. ground arith;
  event = λ p. ground arith;
  id = λ p. ground arith;
  clock = record {
    handlers = refl;
    ticks = refl;
    freq = refl;
    flags = λ p. ground arith;
    num = λ p. ground arith;
    fault_head = refl;
    fault_tail = refl;
    debug_tail = refl;
    cs = λ p. ground arith;
    fault_link = λ p. ground arith;
  };
  waiting = λ p w. ground arith;
}

-- A call with `ebx` set first.
from_call :
    (k : Kernel) (t arg : ℕ) (r : Run Kernel ℕ)
    → Ensures r (λ _. SameEvents (with_ebx t arg k))
    → Ensures r (λ _. SameEvents k)
from_call k t arg r h =
    Ensures-mono _ (λ _. SameEvents k) r h
      (λ _ l j. SameEvents-trans k (with_ebx t arg k) l (with_ebx-SameEvents k t arg) j)

pub not_waiting : (m : Model) (k : Kernel) → Sane m k → (k.mem m.running).state ≢ ts_waiting
not_waiting m k s w = let e = running_state m k s in ground (arith, e, w)

requeue_back :
    (m : Model) (k : Kernel) (r : Run Kernel (Unit {0}))
    → Sane m k
    → Ensures r (λ _. Requeued k m.running m.queue)
    → Ensures r (λ _. SameEvents k)
    → Ensures (and_then r (λ _. back)) (λ _. SameEvents k)
requeue_back m k r s f g =
    then_back k (requeued m) r (length-snoc m.queue m.running)
      (Ensures-mono _ (λ _ l. Idle (requeued m) l) r f (λ _ l h. requeued-Idle m k l s h)) g

pub perform_event-SameEvents :
    (e : Event) (m : Model) (k : Kernel)
    → Possible e m
    → Sane m k
    → Ensures (perform_event e m.running k) (λ _. SameEvents k)
unfolding perform_event kcall_yield
perform_event-SameEvents tick m k a s =
    requeue_back m k (preempt m.running k) s
      (preempt-Requeued k m.running m.queue s.ne_null (running-not-mem m k s) (running_state m k s)
        s.waiting.sched)
      (preempt-SameEvents k m.running s.ne_null (running_state m k s))
perform_event-SameEvents yield m k a s =
    requeue_back m k (kcall_yield m.running k) s
      (requeue-Requeued k m.running m.queue s.ne_null (running-not-mem m k s) s.waiting.sched)
      (requeue-SameEvents k m.running s.ne_null (not_waiting m k s))
perform_event-SameEvents rest m k a s =
    let t = m.running in
    let k' = with_ebx t minus_one k in
    let s' = with_ebx-Sane m k minus_one s in
    let ebx : (k'.mem t).ebx ≡ minus_one = ground arith in
    let m' : Model = record m { paused = update m.paused t true } in
    rw (call_with-steps kcall_pause k t minus_one s.ne_null) (
      from_call k t minus_one _ (
        then_back k' m' (kcall_pause t k') a
          (Ensures-mono (λ _. Rests k' t m.queue) (λ _ l. Idle m' l) (kcall_pause t k')
            (kcall_pause-Rests k' t m.queue s.ne_null ebx (running_state m k' s') s'.waiting.sched)
            (λ _ l h. paused-Idle m k' l s' h.active h.table h.sched h.state h.kept))
          (kcall_pause_self k' t s.ne_null ebx (running_state m k' s'))))
perform_event-SameEvents (pause id) m k a s =
    let t = m.running in
    let k' = with_ebx t id k in
    let s' = with_ebx-Sane m k id s in
    let names = call-Names m k id s a.0 a.1 in
    let queued : states k' (m.table id) ≡ ts_queued =
      ground (arith, s'.waiting.queued (m.table id), a.2) in
    rw (call_with-steps kcall_pause k t id s.ne_null) (
      from_call k t id _ (
        then_stay k' (model_event (pause id) m) (kcall_pause t k')
          (Ensures-mono (λ _. Paused k' t (m.table id) m.queue) _ (kcall_pause t k')
            (kcall_pause-Paused k' t (m.table id) m.queue s.ne_null names queued a.3 a.2
              s'.waiting.sched)
            (λ _ l h. Paused-Sane m k' l id s' a.2 h))
          (kcall_pause-queued k' t (m.table id) m.queue s.ne_null names queued a.3 a.2
            s'.waiting.sched)))
perform_event-SameEvents (resume id) m k a s =
    let t = m.running in
    let k' = with_ebx t id k in
    let s' = with_ebx-Sane m k id s in
    let names = call-Names m k id s a.0 a.1 in
    let paused : states k' (m.table id) ≡ ts_paused =
      ground (arith, s'.waiting.paused (m.table id), a.2) in
    let out : m.table id ∉ m.queue =
      ground (arith, s'.waiting.queued (m.table id), s'.waiting.paused (m.table id), a.2) in
    rw (call_with-steps kcall_resume k t id s.ne_null) (
      from_call k t id _ (
        then_stay k' (model_event (resume id) m) (kcall_resume t k')
          (Ensures-mono (λ _. Resumed k' t (m.table id) m.queue) _ (kcall_resume t k')
            (kcall_resume-Resumed k' t (m.table id) m.queue s.ne_null names paused out
              s'.waiting.sched)
            (λ _ l h. Resumed-Sane m k' l id s' a.2 h))
          (kcall_resume-paused k' t (m.table id) m.queue s.ne_null names paused out
            s'.waiting.sched)))
