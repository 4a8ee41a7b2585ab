-- ===== src/Thread/Sched.antt =====
-- The scheduler's queue.
pub mod Fifo
pub mod Remove
pub mod Refine
use pinion.Base.{
  ℕ, zero, suc, ◌+◌, Run, ok, crash, Cmd, pure, fail, get, modify, when, ◌>>=◌, ◌>>◌, ◌==◌,
  if◌then◌else◌, update, hang,
}
use pinion.Vm.{null}
use pinion.Kernel.{Thread, Kernel, KCmd, load, edit, thread_count}

unfoldable pub schedule_push : ℕ → KCmd ℕ
unfolding edit
schedule_push thread = do
  k ← get
  (if k.sched_tail == null
      then modify (λ k. record k { sched_head = thread })
      else edit k.sched_tail (λ t. record t { next = thread }))
  modify (λ k. record k { sched_tail = thread })
  edit thread (λ t. record t { next = null })
  pure 0

-- `t1->next` is the thread to remove: it is unlinked.
unfoldable pub unlink_after : ℕ → ℕ → KCmd ℕ
unfolding load edit
unlink_after thread t1 = do
  t ← load thread
  edit t1 (λ s. record s { next = t.next })
  k ← get
  when (k.sched_tail == thread) (modify (λ k. record k { sched_tail = t1 }))
  pure 0

-- The `for` loop of `schedule_remv`, on fuel.
unfoldable pub remv_loop : ℕ → ℕ → ℕ → KCmd ℕ
unfolding load unlink_after
remv_loop zero thread t1 k = crash hang
remv_loop (suc fuel) thread t1 k =
    let rest = remv_loop fuel thread (k.mem t1).next k in
    if (k.mem t1).next == null
    then ok 1 k
    else if (k.mem t1).next == thread
    then unlink_after thread t1 k
    else rest

-- The head of the queue is removed.
unfoldable pub remv_head : KCmd ℕ
unfolding load
remv_head = do
  k ← get
  head ← load k.sched_head
  modify (λ k. record k { sched_head = head.next })
  when (head.next == null) (modify (λ k. record k { sched_tail = null }))
  pure 0

-- A queue holds at most one entry for each of the THREAD_COUNT threads.
unfoldable pub schedule_remv : ℕ → KCmd ℕ
schedule_remv thread k =
    if k.sched_head == null
    then ok 1 k
    else if thread == k.sched_head
    then remv_head k
    else remv_loop (thread_count + 1) thread k.sched_head k

abbrev pub schedule_next : KCmd ℕ
schedule_next k = ok k.sched_head k
