-- ===== src/Thread/Event.antt =====
-- The event queues.
pub mod Fifo
pub mod Latch
pub mod Kept
pub mod Unlink
use pinion.Base.{
  ℕ, zero, suc, ◌+◌, ◌-◌, ◌^◌, Run, ok, crash, Cmd, pure, fail, get, modify, when, ◌>>=◌, ◌>>◌, ltb,
  leb, ◌==◌, if◌then◌else◌, update, hang, out_of_bounds, Bool, ◌||◌, not,
}
use pinion.Vm.{null}
use pinion.Kernel.{
  Thread, EvQueue, Kernel, KCmd, load, edit, thread_count, ev_count, minus_one, ts_running,
  ts_queued, ts_waiting,
}
use pinion.Irq.{irq_mask, irq_reset}
use pinion.Thread.Table.{thread_get, thread_save}
use pinion.Thread.Sched.{schedule_push}
use pinion.Thread.Requeue.{requeue}

abbrev pub set_front : ℕ → ℕ → Kernel → Kernel
set_front event t k = record k {
  evqueue = update k.evqueue event (record (k.evqueue event) { front_thread = t });
}

abbrev pub set_back : ℕ → ℕ → Kernel → Kernel
set_back event t k = record k {
  evqueue = update k.evqueue event (record (k.evqueue event) { back_thread = t });
}

-- `event_wait` on a valid event that is pending, and on one that is not.
unfoldable pub wait_pending : ℕ → KCmd ℕ
wait_pending thread = requeue thread >> pure 0

unfoldable pub wait_queue : ℕ → ℕ → KCmd ℕ
wait_queue thread event = do
  k ← get
  (if (k.evqueue event).back_thread == null
      then modify (set_front event thread)
      else edit (k.evqueue event).back_thread (λ t. record t { next_evqueue = thread }))
  modify (set_back event thread)
  edit thread (λ t. record t { next_evqueue = null; event = event })
  thread_save thread
  edit thread (λ t. record t { state = ts_waiting })
  pure 0

-- `event < 0`: the state of event `~event` is asked for.
unfoldable pub wait_poll : ℕ → KCmd ℕ
wait_poll event k =
    if leb ev_count (minus_one - event)
    then crash out_of_bounds
    else if k.irqstate (minus_one - event) == 0
    then ok 0 k
    else ok 1 k

unfoldable pub event_wait : ℕ → ℕ → KCmd ℕ
event_wait id event = do
  thread ← thread_get id
  k ← get
  if thread == null
      then pure 1
      else if leb (2 ^ 31) event
      then wait_poll event
      else if leb ev_count event
      then pure 1
      else if k.irqstate event == 0
      then wait_queue thread event
      else wait_pending thread

-- The head of the event's queue is removed.
unfoldable pub event_remv_front : ℕ → ℕ → KCmd ℕ
event_remv_front thread event = do
  t ← load thread
  modify (set_front event t.next)
  k ← get
  when ((k.evqueue event).back_thread == thread) (modify (set_back event null))
  pure 0

unfoldable pub event_unlink : ℕ → ℕ → ℕ → KCmd ℕ
event_unlink thread event t = do
  s ← load thread
  edit t (λ p. record p { next = s.next })
  k ← get
  when ((k.evqueue event).back_thread == thread) (modify (set_back event t))
  pure 0

-- The `for` loop of `event_remv`, on fuel. It goes along the scheduler's links.
unfoldable pub event_remv_loop : ℕ → ℕ → ℕ → ℕ → KCmd ℕ
unfolding event_unlink
event_remv_loop zero thread event t k = crash hang
event_remv_loop (suc fuel) thread event t k =
    let rest = event_remv_loop fuel thread event (k.mem t).next k in
    if (k.mem t).next == null
    then ok 1 k
    else if (k.mem t).next == thread
    then event_unlink thread event t k
    else rest

unfoldable pub event_remv : ℕ → ℕ → KCmd ℕ
event_remv id event = do
  thread ← thread_get id
  k ← get
  let front = (k.evqueue event).front_thread
  if thread == null
      then pure 1
      else if leb ev_count event
      then pure 1
      else if front == null
      then pure 1
      else if front == thread
      then event_remv_front thread event
      else event_remv_loop (thread_count + 1) thread event front

-- The first waiting thread gets the event.
unfoldable pub event_deliver : ℕ → ℕ → KCmd (Unit {0})
event_deliver thread event = do
  t ← load thread
  modify (set_front event t.next_evqueue)
  when (t.next_evqueue == null) (modify (set_back event null))
  edit thread (λ t. record t { eax = event; event = minus_one })
  when (t.state == ts_running) (thread_save thread >> pure tt)
  schedule_push thread
  edit thread (λ t. record t { state = ts_queued })

unfoldable pub event_latch : ℕ → KCmd (Unit {0})
event_latch event = do
  irq_mask event
  irq_reset event
  modify (λ k. record k { irqstate = update k.irqstate event 1 })

unfoldable pub event_send : ℕ → ℕ → KCmd ℕ
event_send id event = if leb (2 ^ 31) event || leb ev_count event then pure 1 else do
  k ← get
  when (not ((k.evqueue event).front_thread == null))
      (event_deliver (k.evqueue event).front_thread event)
  when (ltb event 240) (event_latch event)
  pure 0
