-- ===== src/Thread/Table.antt =====
-- Thread structures: allocation, the table of IDs, loading and saving.
pub mod Load
use pinion.Base.{
  ℕ, zero, suc, ◌+◌, ◌*◌, ◌^◌, [], Option, none, some, Bool, ◌||◌, ◌&&◌, not, Run, ok, Cmd, pure,
  get, modify, when, ◌>>=◌, ◌>>◌, leb, ◌==◌, if◌then◌else◌, update,
}
use pinion.Vm.{null}
use pinion.Vm.Heap.{heap_alloc, heap_free}
use pinion.Vm.Pctx.{free_slot, pctx_load}
use pinion.Kernel.{
  Thread, zero_thread, thread_size, vm86_es_offset, vm86_start_offset, Kernel, KCmd, in_vm, load,
  edit, thread_count, ts_paused,
}

-- src/kernel/fpu.s: `fsave` stores the FPU's state and initialises it, `frstor` loads it.
unfoldable pub fpu_save : ℕ → KCmd (Unit {0})
fpu_save fxdata =
    modify (λ k.
      if k.can_use_fpu then record k { fx_mem = update k.fx_mem fxdata k.fpu; fpu = [] } else k)

unfoldable pub fpu_load : ℕ → KCmd (Unit {0})
fpu_load fxdata = modify (λ k. if k.can_use_fpu then record k { fpu = k.fx_mem fxdata } else k)

unfoldable pub set_int_stack : ℕ → KCmd (Unit {0})
set_int_stack ptr = modify (λ k. record k { esp0 = ptr })

-- The end of `thread_alloc`, with the outcome of the search for a free entry.
unfoldable pub claim : Option ℕ → ℕ → KCmd ℕ
claim none thread = pure null
claim (some i) thread = do
  modify (λ k. record k { thread_table = update k.thread_table i thread })
  edit thread (λ t. record t { id = i; state = ts_paused })
  pure thread

unfoldable pub thread_alloc : KCmd ℕ
unfolding edit claim
thread_alloc = do
  thread ← in_vm (heap_alloc thread_size)
  fxdata ← in_vm (heap_alloc 512)
  edit thread (λ t. record t { fxdata = fxdata })
  edit thread (λ _. zero_thread)
  k ← get
  claim (free_slot thread_count 0 k.thread_table) thread

unfoldable pub thread_get : ℕ → KCmd ℕ
thread_get thread k =
    ok (if leb (2 ^ 31) thread || leb thread_count thread then null else k.thread_table thread) k

unfoldable pub thread_kill : ℕ → KCmd (Unit {0})
unfolding load edit
thread_kill thread = do
  t ← load thread
  modify (λ k. record k { thread_table = update k.thread_table t.id null })
  when (not (t.fxdata == null))
      do in_vm (heap_free t.fxdata 512); edit thread (λ t. record t { fxdata = null })
  in_vm (heap_free thread thread_size)

abbrev pub thread_get_active : KCmd ℕ
thread_get_active k = ok k.active_thread k

unfoldable pub thread_load : ℕ → KCmd ℕ
unfolding load fpu_load set_int_stack
thread_load thread = do
  t ← load thread
  set_int_stack (if t.vm86_active == 0 then thread + vm86_es_offset else thread + vm86_start_offset)
  when (not (t.fxdata == null)) (fpu_load t.fxdata)
  k ← get
  when (not (t.pctx == 0) && not (t.pctx == k.vm.active_pctx)) (in_vm (pctx_load t.pctx) >> pure tt)
  modify (λ k. record k { active_thread = thread })
  pure 0

unfoldable pub thread_save : ℕ → KCmd ℕ
unfolding fpu_save
thread_save thread = do
  k ← get
  let t = k.mem thread
  when (not (thread == null) && not (t.fxdata == null)) (fpu_save t.fxdata)
  modify (λ k. record k { active_thread = null })
  pure 0

-- `none` is the -1 of the source.
unfoldable pub thread_new : KCmd (Option ℕ)
unfolding load thread_alloc
thread_new = do
  thread ← thread_alloc
  if thread == null then pure none else do t ← load thread; pure (some t.id)
