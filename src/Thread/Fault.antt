-- ===== src/Thread/Fault.antt =====
-- The faulting threads and the debuggers that wait for them. Of each queue `tail` is the oldest
-- entry and `head` the newest.
pub mod Pull
pub mod Push
use pinion.Base.{
  ℕ, Run, ok, crash, Cmd, pure, get, modify, when, ◌>>=◌, ◌>>◌, ◌==◌, if◌then◌else◌, update,
}
use pinion.Vm.{null}
use pinion.Kernel.{Thread, Kernel, KCmd, load, edit, ts_queued}
use pinion.Thread.Dead.{notify}

-- The oldest debugger leaves its queue.
unfoldable pub debug_pull : KCmd ℕ
unfolding load
debug_pull = do
  k ← get
  let debug = k.debug_tail
  r ← load debug
  modify (λ k. record k { debug_tail = r.next_fault })
  when (r.next_fault == null) (modify (λ k. record k { debug_head = null }))
  pure debug

unfoldable pub fault_enqueue : ℕ → KCmd ℕ
unfolding edit
fault_enqueue thread = do
  k ← get
  if k.fault_head == null
      then modify (λ k. record k { fault_head = thread; fault_tail = thread }) >> pure 0
      else do
        edit k.fault_head (λ t. record t { next_fault = thread })
        edit thread (λ t. record t { next_fault = null })
        modify (λ k. record k { fault_head = thread })
        pure 0

unfoldable pub fault_push : ℕ → KCmd ℕ
fault_push thread = do
  k ← get
  if k.debug_tail == null
      then fault_enqueue thread
      else do debug ← debug_pull; t ← load thread; notify debug t.id

abbrev pub fault_peek : KCmd ℕ
fault_peek k = ok k.fault_tail k

-- The link that is followed is the scheduler's, as in the source.
unfoldable pub fault_pull : KCmd ℕ
unfolding load
fault_pull = do
  k ← get
  if k.fault_tail == null then pure null else do
    d ← load k.fault_tail
    modify (λ k. record k { fault_tail = d.next })
    when (d.next == null) (modify (λ k. record k { fault_head = null }))
    pure k.fault_tail

unfoldable pub debug_enqueue : ℕ → KCmd ℕ
unfolding edit
debug_enqueue debug = do
  k ← get
  if k.debug_head == null
      then modify (λ k. record k { debug_head = debug; debug_tail = debug }) >> pure 0
      else do
        edit k.debug_head (λ t. record t { next_fault = debug })
        edit debug (λ t. record t { next_fault = null })
        modify (λ k. record k { debug_head = debug })
        pure 0

unfoldable pub fault_wait : ℕ → KCmd ℕ
fault_wait debug = do
  k ← get
  if k.fault_tail == null
      then debug_enqueue debug
      else do fault ← fault_pull; d ← load fault; notify debug d.id
