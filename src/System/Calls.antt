-- ===== src/System/Calls.antt =====
-- The wrappers of src/system/kcalls.c over the kernel of `Kcall`. `image` is the calling thread. The
-- stub of src/system/kcall.s puts the call and its first three arguments into eax, ebx, ecx and edx
-- and enters the kernel; the result is what eax holds when the thread runs on. Modelled are the
-- calls from which the caller runs on at once, or the state in which the kernel leaves it.
pub mod Enter
pub mod Kill
use pinion.Base.{
  ℕ, ◌+◌, ◌-◌, ◌/◌, ◌%◌, ◌^◌, bit_or, Run, ok, Cmd, pure, get, modify, ◌>>=◌, ◌>>◌, leb, ◌==◌, not,
  if◌then◌else◌, update,
}
use pinion.Vm.{u32}
use pinion.Kernel.{Thread, TInfo, TRegs, Kernel, KCmd, load, edit, tf_dead, minus_one}
use pinion.Kcall.Dispatch.{kcall}

-- `kcall` of src/system/kcall.s; the fourth argument is not passed on.
unfoldable pub call_kernel : ℕ → ℕ → ℕ → ℕ → ℕ → KCmd ℕ
unfolding edit load
call_kernel image call arg0 arg1 arg2 = do
  edit image (λ t. record t { eax = call; ebx = arg0; ecx = arg1; edx = arg2 })
  kcall image
  t ← load image
  pure t.eax

unfoldable pub t_spawn : ℕ → ℕ → KCmd ℕ
t_spawn image state = call_kernel image 0x02 state 0 0

unfoldable pub t_reap : ℕ → ℕ → ℕ → KCmd ℕ
t_reap image thread info = call_kernel image 0x0B thread info 0

unfoldable pub t_getid : ℕ → KCmd ℕ
t_getid image = call_kernel image 0x03 0 0 0

unfoldable pub t_yield : ℕ → KCmd ℕ
t_yield image = call_kernel image 0x04 0 0 0

unfoldable pub t_pause : ℕ → ℕ → KCmd ℕ
t_pause image thread = call_kernel image 0x05 thread 0 0

unfoldable pub t_resume : ℕ → ℕ → KCmd ℕ
t_resume image thread = call_kernel image 0x06 thread 0 0

unfoldable pub t_getstate : ℕ → ℕ → ℕ → KCmd ℕ
t_getstate image thread state = call_kernel image 0x07 thread state 0

unfoldable pub t_setstate : ℕ → ℕ → ℕ → KCmd ℕ
t_setstate image thread state = call_kernel image 0x08 thread state 0

unfoldable pub t_getdead : ℕ → KCmd ℕ
t_getdead image = call_kernel image 0x0A 0 0 0

unfoldable pub t_getfault : ℕ → KCmd ℕ
t_getfault image = call_kernel image 0x09 0 0 0

unfoldable pub irq_wait : ℕ → ℕ → KCmd ℕ
irq_wait image irq = call_kernel image 0x0D irq 0 0

unfoldable pub irq_reset_call : ℕ → ℕ → KCmd ℕ
irq_reset_call image irq = call_kernel image 0x0E irq 0 0

-- `state.flags |= TF_DEAD; state.regs.eax = status;` on the local structure at `slot`.
unfoldable pub mark_dead : ℕ → ℕ → KCmd (Unit {0})
mark_dead slot status = modify (λ k.
    let old = k.info slot in
    record k {
      info = update k.info slot (record old {
        flags = bit_or old.flags tf_dead;
        regs = record old.regs { eax = status };
      });
    })

-- The second half that `__t_exit` and `__t_kill` share: the state of `thread` is read to `slot`,
-- marked and written back.
unfoldable pub die : ℕ → ℕ → ℕ → ℕ → KCmd ℕ
unfolding mark_dead
die image slot thread status = do
  err ← t_getstate image thread slot
  if not (err == 0)
      then pure err
      else do mark_dead slot status; err ← t_setstate image thread slot; pure err

unfoldable pub t_exit : ℕ → ℕ → ℕ → KCmd ℕ
unfolding die
t_exit image slot status = die image slot minus_one status

unfoldable pub t_kill : ℕ → ℕ → ℕ → ℕ → KCmd ℕ
t_kill image slot thread status = do
  err ← t_pause image thread
  if not (err == 0) then pure err else die image slot thread status

unfoldable pub pctx_new_call : ℕ → KCmd ℕ
pctx_new_call image = call_kernel image 0x10 0 0 0

unfoldable pub pctx_free_call : ℕ → ℕ → KCmd ℕ
pctx_free_call image pctx = call_kernel image 0x11 pctx 0 0

-- An `int` widened to a `uint64_t`.
unfoldable pub widen : ℕ → ℕ
widen r = if leb (2 ^ 31) r then r + (2 ^ 64 - u32) else r

unfoldable pub newframe : ℕ → KCmd ℕ
unfolding widen
newframe image = do r ← call_kernel image 0x1C 0 0 0; pure (widen r)

unfoldable pub freeframe : ℕ → ℕ → KCmd ℕ
freeframe image frame = call_kernel image 0x1D (frame % u32) (frame / u32) 0

unfoldable pub takeframe : ℕ → ℕ → KCmd ℕ
takeframe image frame = call_kernel image 0x1E (frame % u32) (frame / u32) 0

unfoldable pub p_set_frame : ℕ → ℕ → ℕ → KCmd ℕ
p_set_frame image page frame = call_kernel image 0x12 page (frame % u32) 0

unfoldable pub p_set_flags : ℕ → ℕ → ℕ → KCmd ℕ
p_set_flags image page flags = call_kernel image 0x13 page flags 0

unfoldable pub p_alloc : ℕ → ℕ → ℕ → KCmd ℕ
unfolding newframe
p_alloc image page flags = do
  frame ← newframe image
  if frame == 2 ^ 64 - 1
      then pure 1
      else do p_set_frame image page frame; p_set_flags image page flags; pure 0

unfoldable pub p_get_frame : ℕ → ℕ → KCmd ℕ
unfolding widen
p_get_frame image page = do r ← call_kernel image 0x14 page 0 0; pure (widen r)

unfoldable pub p_get_flags : ℕ → ℕ → KCmd ℕ
p_get_flags image page = call_kernel image 0x15 page 0 0
