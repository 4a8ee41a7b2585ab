-- ===== src/Kcall/Setstate.antt =====
-- KCALL_SETSTATE.
use pinion.Base.{
  fail, null_pointer, ℕ, bit_and, ◌||◌, not, pure, get, modify, when, ◌>>=◌, ◌>>◌, ◌==◌,
  if◌then◌else◌, update,
}
use pinion.Vm.{null}
use pinion.Vm.Heap.{heap_alloc}
use pinion.Vm.Pctx.{pctx_load}
use pinion.Kernel.{
  Thread, TInfo, TRegs, KCmd, in_vm, load, edit, ts_running, ts_paused, ts_pausedw, tf_dead,
  te_state, te_exist,
}
use pinion.Thread.Table.{thread_save}
use pinion.Thread.Dead.{dead_push}
use pinion.Kcall.Threads.{set_eax, set_state, target_or_self}

-- TF_DEAD is set: the thread stops, and a reaper is told.
unfoldable pub setstate_kill : ℕ → KCmd (Unit {0})
unfolding set_state
setstate_kill target = do
  t ← load target
  when (t.state == ts_running) (thread_save target >> set_state target ts_paused)
  dead_push target
  pure tt

abbrev pub put_regs : TRegs → Thread → Thread
put_regs regs t = record t {
  edi = regs.edi;
  esi = regs.esi;
  ebp = regs.ebp;
  useresp = regs.esp;
  ebx = regs.ebx;
  edx = regs.edx;
  ecx = regs.ecx;
  eax = regs.eax;
  eip = regs.eip;
  eflags = regs.eflags;
}

-- The registers of a thread that does not run, with the FPU's. The copy into a save area that
-- could not be allocated is a write through NULL.
unfoldable pub setstate_regs : ℕ → TInfo → KCmd (Unit {0})
unfolding load edit
setstate_regs target src = do
  edit target (put_regs src.regs)
  t ← load target
  when (t.fxdata == null)
      do fxdata ← in_vm (heap_alloc 512); edit target (λ t. record t { fxdata = fxdata })
  u ← load target
  if u.fxdata == null
      then fail null_pointer
      else modify (λ k. record k { fx_mem = update k.fx_mem u.fxdata src.regs.fxdata })

unfoldable pub setstate_apply : ℕ → ℕ → TInfo → KCmd (Unit {0})
unfolding setstate_kill setstate_regs set_eax
setstate_apply image target src = do
  when (not (bit_and src.flags tf_dead == 0)) (setstate_kill target)
  t ← load target
  when (not (t.pctx == src.pctx)) (in_vm (pctx_load src.pctx) >> pure tt)
  edit target (λ t. record t { pctx = src.pctx; flags = src.flags; fault = src.fault })
  u ← load target
  when (not (u.state == ts_running)) (setstate_regs target src)
  edit target (λ t. record t { usr_eip = src.usr_ip; usr_esp = src.usr_sp })
  set_eax image 0

unfoldable pub setstate_target : ℕ → ℕ → KCmd (Unit {0})
unfolding setstate_apply set_eax
setstate_target image target = do
  t ← load target
  i ← load image
  k ← get
  if (t.state == ts_paused) || (t.state == ts_pausedw) || (t.state == ts_running)
      then (if i.ecx == null then fail null_pointer else setstate_apply image target (k.info i.ecx))
      else set_eax image te_state

unfoldable pub kcall_setstate : ℕ → KCmd (Unit {0})
unfolding setstate_target set_eax
kcall_setstate image = do
  target ← target_or_self image
  if target == null then set_eax image te_exist else setstate_target image target
