-- ===== src/Interrupt/Follows.antt =====
-- The scheduling of src/kernel/interrupt.c and src/kernel/kcall.c against the machine of
-- Interrupt.Model.
use pinion.Base.{
  ℕ, ◌≡◌, refl, sym, ap, subst, ◌≢◌, ◌<◌, arith, List, [], ◌∷◌, ◌∉◌, true, update, ==_ne, Ensures,
  Ensures-bind, Run, and_then,
}
use pinion.Vm.{null}
use pinion.Kernel.{Kernel, KCmd, edit, thread_count, minus_one, ts_queued, ts_paused}
use pinion.Thread.Requeue.{Requeued, requeue-Requeued}
use pinion.Kcall.Threads.{kcall_yield, kcall_pause, kcall_resume}
use pinion.Kcall.Threads.Roundtrip.{Paused, Resumed, kcall_pause-Paused, kcall_resume-Resumed}
use pinion.Kcall.Threads.Rest.{Rests, kcall_pause-Rests}
use pinion.Thread.Event.Fifo.{Names}
use pinion.Interrupt.{preempt}
use pinion.Interrupt.Switch.{preempt-Requeued}
use pinion.Interrupt.Model.{
  Event, tick, yield, rest, pause, resume, back, call_with, perform_event, run_events, Model,
  run_next, requeued, model_event, model_events, Possible, AllPossible, Sane,
}
use pinion.Interrupt.States.{states}
use pinion.Interrupt.Sane.{
  running-not-mem, running_state, requeued-Idle, back-Sane, stay-Sane, length-snoc, with_ebx,
  with_ebx-Sane, paused-Idle, Paused-Sane, Resumed-Sane,
}

-- A call with `ebx` set first.
pub call_with-steps :
    (call : ℕ → KCmd (Unit {0})) (k : Kernel) (t arg : ℕ)
    → t ≢ null
    → call_with call t arg k ≡ call t (with_ebx t arg k)
unfolding edit
call_with-steps call k t arg n = rw (==_ne t null n)

-- The running thread is `m`'s, and the kernel is in the state that `m` describes.
abbrev pub Follows : Model → ℕ → Kernel → Type 0
Follows m r l = (r ≡ m.running) × Sane m l

requeue-Follows :
    (m : Model) (k : Kernel) (r : Run Kernel (Unit {0}))
    → Sane m k
    → Ensures r (λ _. Requeued k m.running m.queue)
    → Ensures (and_then r (λ _. back)) (Follows (run_next (requeued m).queue (requeued m)))
requeue-Follows m k r s h =
    Ensures-bind (λ _. Requeued k m.running m.queue) _ r _ h
      (λ _ l g.
        back-Sane (requeued m) (requeued m).queue l refl (length-snoc m.queue m.running)
          (requeued-Idle m k l s g))

-- `ebx` names the thread that the call is about.
pub call-Names :
    (m : Model) (k : Kernel) (id : ℕ)
    → Sane m k
    → id < thread_count
    → m.table id ≢ null
    → Names (with_ebx m.running id k) ((with_ebx m.running id k).mem m.running).ebx (m.table id)
call-Names m k id s valid n =
    let ebx : ((with_ebx m.running id k).mem m.running).ebx ≡ id = ground arith in
    rw ebx (record { valid = valid; entry = ap (λ (f : ℕ → ℕ). f id) s.waiting.table; ne_null = n })

pub perform_event-Follows :
    (e : Event) (m : Model) (k : Kernel)
    → Possible e m
    → Sane m k
    → Ensures (perform_event e m.running k) (Follows (model_event e m))
unfolding perform_event kcall_yield
perform_event-Follows tick m k a s = requeue-Follows m k (preempt m.running k) s (
    preempt-Requeued k m.running m.queue s.ne_null (running-not-mem m k s) (running_state m k s)
      s.waiting.sched)
perform_event-Follows yield m k a s =
    requeue-Follows m k (kcall_yield m.running k) s
      (requeue-Requeued k m.running m.queue s.ne_null (running-not-mem m k s) s.waiting.sched)
perform_event-Follows rest m k a s =
    let t = m.running in
    let k' = with_ebx t minus_one k in
    let s' = with_ebx-Sane m k minus_one s in
    let ebx : (k'.mem t).ebx ≡ minus_one = ground arith in
    rw (call_with-steps kcall_pause k t minus_one s.ne_null) (
      Ensures-bind (λ _. Rests k' t m.queue) _ (kcall_pause t k') _
        (kcall_pause-Rests k' t m.queue s.ne_null ebx (running_state m k' s') s'.waiting.sched)
        (λ _ l h.
          back-Sane (record m { paused = update m.paused t true }) m.queue l refl a
            (paused-Idle m k' l s' h.active h.table h.sched h.state h.kept)))
perform_event-Follows (pause id) m k a s =
    let t = m.running in
    let k' = with_ebx t id k in
    let s' = with_ebx-Sane m k id s in
    let names = call-Names m k id s a.0 a.1 in
    let queued : states k' (m.table id) ≡ ts_queued =
      ground (arith, s'.waiting.queued (m.table id), a.2) in
    rw (call_with-steps kcall_pause k t id s.ne_null) (
      Ensures-bind (λ _. Paused k' t (m.table id) m.queue) _ (kcall_pause t k') _
        (kcall_pause-Paused k' t (m.table id) m.queue s.ne_null names queued a.3 a.2
          s'.waiting.sched)
        (λ _ l h. stay-Sane (model_event (pause id) m) l (Paused-Sane m k' l id s' a.2 h)))
perform_event-Follows (resume id) m k a s =
    let t = m.running in
    let k' = with_ebx t id k in
    let s' = with_ebx-Sane m k id s in
    let names = call-Names m k id s a.0 a.1 in
    let paused : states k' (m.table id) ≡ ts_paused =
      ground (arith, s'.waiting.paused (m.table id), a.2) in
    let out : m.table id ∉ m.queue =
      ground (arith, s'.waiting.queued (m.table id), s'.waiting.paused (m.table id), a.2) in
    rw (call_with-steps kcall_resume k t id s.ne_null) (
      Ensures-bind (λ _. Resumed k' t (m.table id) m.queue) _ (kcall_resume t k') _
        (kcall_resume-Resumed k' t (m.table id) m.queue s.ne_null names paused out s'.waiting.sched)
        (λ _ l h. stay-Sane (model_event (resume id) m) l (Resumed-Sane m k' l id s' a.2 h)))

-- From a state in which just the active thread is in TS_RUNNING and just the threads of the
-- scheduler's queue are in TS_QUEUED, any sequence of timer ticks and of calls that yield, that pause
-- the caller while another thread is queued, that pause a queued thread of a queue of at most
-- THREAD_COUNT, or that resume a paused one, ends in such a state again: with the thread running, the
-- queue in the order and the threads paused that the same events give in the model.
pub run_events-Follows :
    (es : List Event) (m : Model) (k : Kernel)
    → AllPossible es m
    → Sane m k
    → Ensures (run_events es m.running k) (Follows (model_events es m))
unfolding run_events
run_events-Follows [] m k a s = (refl, s)
run_events-Follows (e ∷ es) m k a s =
    Ensures-bind (Follows (model_event e m)) _ (perform_event e m.running k) _
      (perform_event-Follows e m k a.0 s)
      (λ r l h.
        subst (λ t. Ensures (run_events es t l) (Follows (model_events es (model_event e m))))
          (sym h.0) (run_events-Follows es (model_event e m) l a.1 h.1))
