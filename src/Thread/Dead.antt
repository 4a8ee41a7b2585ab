-- ===== src/Thread/Dead.antt =====
-- The dead threads and the reapers that wait for them. Of each queue `tail` is the oldest entry
-- and `head` the newest.
pub mod Rendezvous
pub mod Stale
use pinion.Base.{
  ℕ, Run, ok, crash, Cmd, pure, get, modify, when, ◌>>=◌, ◌>>◌, ◌==◌, if◌then◌else◌, update,
}
use pinion.Vm.{null}
use pinion.Kernel.{Thread, Kernel, KCmd, load, edit, ts_queued}
use pinion.Thread.Sched.{schedule_push}

-- A thread that waited is told an ID and scheduled.
unfoldable pub notify : ℕ → ℕ → KCmd ℕ
unfolding edit
notify waiter id = do
  edit waiter (λ t. record t { eax = id })
  schedule_push waiter
  edit waiter (λ t. record t { state = ts_queued })
  pure 0

-- The oldest reaper leaves its queue.
unfoldable pub reaper_pull : KCmd ℕ
unfolding load
reaper_pull = do
  k ← get
  let reaper = k.reaper_tail
  r ← load reaper
  modify (λ k. record k { reaper_tail = r.next_dead })
  when (r.next_dead == null) (modify (λ k. record k { reaper_head = null }))
  pure reaper

unfoldable pub dead_enqueue : ℕ → KCmd ℕ
unfolding edit
dead_enqueue thread = do
  k ← get
  if k.dead_head == null
      then modify (λ k. record k { dead_head = thread; dead_tail = thread }) >> pure 0
      else do
        edit k.dead_head (λ t. record t { next_dead = thread })
        edit thread (λ t. record t { next_dead = null })
        modify (λ k. record k { dead_head = thread })
        pure 0

unfoldable pub dead_push : ℕ → KCmd ℕ
dead_push thread = do
  k ← get
  if k.reaper_tail == null
      then dead_enqueue thread
      else do reaper ← reaper_pull; t ← load thread; notify reaper t.id

abbrev pub dead_peek : KCmd ℕ
dead_peek k = ok k.dead_tail k

unfoldable pub dead_pull : KCmd ℕ
unfolding load
dead_pull = do
  k ← get
  if k.dead_tail == null then pure null else do
    d ← load k.dead_tail
    modify (λ k. record k { dead_tail = d.next_dead })
    when (d.next_dead == null) (modify (λ k. record k { dead_head = null }))
    pure k.dead_tail

unfoldable pub reaper_enqueue : ℕ → KCmd ℕ
unfolding edit
reaper_enqueue reaper = do
  k ← get
  if k.reaper_head == null
      then modify (λ k. record k { reaper_head = reaper; reaper_tail = reaper }) >> pure 0
      else do
        edit k.reaper_head (λ t. record t { next_dead = reaper })
        edit reaper (λ t. record t { next_dead = null })
        modify (λ k. record k { reaper_head = reaper })
        pure 0

unfoldable pub dead_wait : ℕ → KCmd ℕ
dead_wait reaper = do
  k ← get
  if k.dead_tail == null
      then reaper_enqueue reaper
      else do dead ← dead_pull; d ← load dead; notify reaper d.id
