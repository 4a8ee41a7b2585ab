-- ===== src/Kcall/Threads.antt =====
-- The calls on threads, but for KCALL_SETSTATE.
pub mod Reap
pub mod Rest
pub mod Resume
pub mod Roundtrip
use pinion.Base.{
  fail, null_pointer, ℕ, zero, suc, ◌+◌, ◌-◌, ◌*◌, ◌^◌, ◌%◌, bit_and, bit_or, Option, none, some,
  Bool, ◌||◌, ◌&&◌, not, Run, ok, Cmd, pure, get, modify, when, ◌>>=◌, ◌>>◌, ltb, leb, ◌==◌,
  if◌then◌else◌, update,
}
use pinion.Vm.{null}
use pinion.Kernel.{
  Thread, TInfo, TRegs, num_offset, Kernel, KCmd, load, edit, ts_queued, ts_running, ts_waiting,
  ts_paused, ts_pausedw, tf_user, te_state, te_exist, minus_one,
}
use pinion.Irq.{irq_unmask}
use pinion.Thread.Table.{thread_get, thread_new, thread_save, thread_kill}
use pinion.Thread.Sched.{schedule_push, schedule_remv}
use pinion.Thread.Requeue.{requeue}
use pinion.Thread.Event.{event_wait, event_remv}
use pinion.Thread.Dead.{dead_peek, dead_pull, dead_wait}
use pinion.Thread.Fault.{fault_peek, fault_pull, fault_wait}

-- `image->eax = value`
unfoldable pub set_eax : ℕ → ℕ → KCmd (Unit {0})
unfolding edit
set_eax image value = edit image (λ t. record t { eax = value })

-- `t->state = state`
unfoldable pub set_state : ℕ → ℕ → KCmd (Unit {0})
unfolding edit
set_state t state = edit t (λ s. record s { state = state })

-- A usermode thread enters the system layer.
unfoldable pub kcall_syscall : ℕ → KCmd (Unit {0})
unfolding edit
kcall_syscall image = edit image (λ t. record t {
  usr_eip = t.eip;
  usr_esp = t.useresp;
  ss = 0x21;
  ds = 0x21;
  cs = 0x19;
  flags = bit_and t.flags (0xFF - tf_user);
  eip = t.sys_eip;
  useresp = t.sys_esp;
})

-- KCALL_SYSRET: it goes back to usermode.
unfoldable pub kcall_sysret : ℕ → KCmd (Unit {0})
unfolding edit
kcall_sysret image = edit image (λ t. record t {
  sys_eip = t.eip;
  sys_esp = t.useresp;
  eax = t.ebp;
  ss = 0x33;
  ds = 0x33;
  cs = 0x2B;
  flags = bit_or t.flags tf_user;
  eip = t.usr_eip;
  useresp = t.usr_esp;
})

-- The registers of a thread that KCALL_SPAWN has allocated.
abbrev pub spawned : ℕ → Thread → TRegs → Thread → Thread
spawned thread image regs t = record t {
  useresp = regs.esp;
  esp = thread + num_offset;
  ss = 0x21;
  ds = 0x21;
  cs = 0x19;
  eflags = image.eflags;
  eip = regs.eip;
  ebp = regs.ebp;
  esi = regs.esi;
  edi = regs.edi;
  edx = regs.edx;
  ecx = regs.ecx;
  ebx = regs.ebx;
  eax = regs.eax;
}

-- KCALL_SPAWN after `thread_new`.
unfoldable pub spawn_with : ℕ → Option ℕ → KCmd (Unit {0})
unfolding set_eax set_state
spawn_with image none = set_eax image minus_one
spawn_with image (some id) = do
  thread ← thread_get id
  k ← get
  i ← load image
  edit thread (spawned thread i (k.info i.ebx).regs)
  set_state thread ts_queued
  schedule_push thread
  set_eax image id

unfoldable pub kcall_spawn : ℕ → KCmd (Unit {0})
unfolding spawn_with
kcall_spawn image = do id ← thread_new; spawn_with image id

abbrev pub copy_regs : Thread → TRegs → TRegs
copy_regs src regs = record regs {
  edi = src.edi;
  esi = src.esi;
  ebp = src.ebp;
  esp = src.useresp;
  ebx = src.ebx;
  edx = src.edx;
  ecx = src.ecx;
  eax = src.eax;
  eip = src.eip;
  eflags = src.eflags;
}

-- What `save_info` makes of the structure `old` for the thread `src`. `event` and `state` are cut
-- to the byte that the structure has.
unfoldable pub info_of : Kernel → Thread → TInfo → TInfo
info_of k src old =
    let regs = copy_regs src old.regs in
    let saved = if src.fxdata == null then regs else record regs { fxdata = k.fx_mem src.fxdata } in
    record old {
      id = src.id;
      pctx = src.pctx;
      state = src.state % 256;
      event = src.event % 256;
      flags = src.flags;
      fault = src.fault;
      fault_addr = src.fault_addr;
      regs = if src.state == ts_running then old.regs else saved;
      usr_ip = src.usr_eip;
      usr_sp = src.usr_esp;
    }

unfoldable pub save_info : ℕ → ℕ → KCmd (Unit {0})
unfolding load info_of
save_info dest src = do
  t ← load src
  if dest == null
      then fail null_pointer
      else modify (λ k. record k { info = update k.info dest (info_of k t (k.info dest)) })

unfoldable pub kcall_reap : ℕ → KCmd (Unit {0})
unfolding set_eax save_info
kcall_reap image = do
  i ← load image
  target ← thread_get i.ebx
  t ← load target
  if not (t.state == ts_paused) then set_eax image te_state else do
    when (not (i.ecx == null)) (save_info i.ecx target)
    set_eax image 0
    thread_kill target

unfoldable pub kcall_gettid : ℕ → KCmd (Unit {0})
unfolding set_eax
kcall_gettid image = do i ← load image; set_eax image i.id

unfoldable pub kcall_yield : ℕ → KCmd (Unit {0})
kcall_yield image = requeue image

-- The thread that `ebx` names, where -1 is the caller.
unfoldable pub target_or_self : ℕ → KCmd ℕ
target_or_self image = do
  i ← load image
  target ← thread_get i.ebx
  pure (if i.ebx == minus_one then image else target)

-- The switch of KCALL_PAUSE on the target's state.
unfoldable pub pause_target : ℕ → ℕ → KCmd (Unit {0})
unfolding set_eax set_state
pause_target image target = do
  t ← load target
  if t.state == ts_running
      then thread_save target >> set_state target ts_paused >> set_eax image 0
      else if t.state == ts_queued
      then schedule_remv target >> set_state target ts_paused >> set_eax image 0
      else if t.state == ts_waiting
      then event_remv t.id t.event >> set_state target ts_pausedw >> set_eax image 0
      else set_eax image te_state

unfoldable pub kcall_pause : ℕ → KCmd (Unit {0})
unfolding target_or_self pause_target
kcall_pause image = do
  target ← target_or_self image
  if target == null then set_eax image te_exist else pause_target image target

unfoldable pub resume_target : ℕ → ℕ → KCmd (Unit {0})
unfolding set_eax set_state
resume_target image target = do
  t ← load target
  if t.state == ts_paused
      then schedule_push target >> set_state target ts_queued >> set_eax image 0
      else if t.state == ts_pausedw
      then event_wait t.id t.event >> set_state target ts_waiting >> set_eax image 0
      else set_eax image te_state

unfoldable pub kcall_resume : ℕ → KCmd (Unit {0})
unfolding resume_target
kcall_resume image = do
  i ← load image
  target ← thread_get i.ebx
  if target == null then set_eax image te_exist else resume_target image target

unfoldable pub getstate_target : ℕ → ℕ → KCmd (Unit {0})
unfolding set_eax save_info
getstate_target image target = do
  t ← load target
  i ← load image
  if not (t.state == ts_paused) && not (t.state == ts_pausedw) && not (target == image)
      then set_eax image te_state
      else save_info i.ecx target >> set_eax image 0

unfoldable pub kcall_getstate : ℕ → KCmd (Unit {0})
unfolding target_or_self getstate_target
kcall_getstate image = do
  target ← target_or_self image
  if target == null then set_eax image te_exist else getstate_target image target

unfoldable pub kcall_getdead : ℕ → KCmd (Unit {0})
unfolding set_eax set_state
kcall_getdead image = do
  front ← dead_peek
  if front == null
      then thread_save image >> set_state image ts_paused >> dead_wait image >> pure tt
      else do dead ← dead_pull; d ← load dead; set_eax image d.id

unfoldable pub kcall_getfault : ℕ → KCmd (Unit {0})
unfolding set_eax set_state
kcall_getfault image = do
  front ← fault_peek
  if front == null
      then thread_save image >> set_state image ts_paused >> fault_wait image >> pure tt
      else do fault ← fault_pull; f ← load fault; set_eax image f.id

unfoldable pub kcall_wait : ℕ → KCmd (Unit {0})
unfolding set_eax
kcall_wait image = do i ← load image; result ← event_wait i.id i.ebx; set_eax image result

unfoldable pub kcall_reset : ℕ → KCmd (Unit {0})
unfolding set_eax
kcall_reset image = do
  i ← load image
  when (ltb i.ebx 240)
      do modify (λ k. record k { irqstate = update k.irqstate i.ebx 0 }); irq_unmask i.ebx; pure tt
  set_eax image 0
