-- ===== src/Kernel/Struct.antt =====
-- `struct thread` of src/kernel/thread.h, and `struct t_regs` and `struct t_info` of
-- src/include/pinion.h. Integers are their bit patterns; pointers are addresses, 0 for NULL.
use pinion.Base.{ℕ, List}

-- What the FPU holds, as `fsave` stores it.
abbrev pub Fpu : Type 0
Fpu = List ℕ

pub record Thread : Type 0 where
  pub ds : ℕ
  pub edi : ℕ
  pub esi : ℕ
  pub ebp : ℕ
  pub esp : ℕ
  pub ebx : ℕ
  pub edx : ℕ
  pub ecx : ℕ
  pub eax : ℕ
  pub num : ℕ
  pub err : ℕ
  pub eip : ℕ
  pub cs : ℕ
  pub eflags : ℕ
  pub useresp : ℕ
  pub ss : ℕ
  pub vm86_es : ℕ
  pub vm86_ds : ℕ
  pub vm86_fs : ℕ
  pub vm86_gs : ℕ
  pub vm86_start : ℕ
  pub vm86_active : ℕ
  pub vm86_if : ℕ
  pub vm86_saved_eip : ℕ
  pub vm86_saved_esp : ℕ
  pub vm86_saved_eflags : ℕ
  pub sys_eip : ℕ
  pub sys_esp : ℕ
  pub usr_eip : ℕ
  pub usr_esp : ℕ
  pub fxdata : ℕ
  pub id : ℕ
  pub state : ℕ
  pub flags : ℕ
  pub tick : ℕ
  pub next : ℕ
  pub event : ℕ
  pub next_evqueue : ℕ
  pub next_dead : ℕ
  pub fault : ℕ
  pub fault_addr : ℕ
  pub next_fault : ℕ
  pub pctx : ℕ

-- A thread structure after `memclr`.
abbrev pub zero_thread : Thread
zero_thread = record {
  ds = 0;
  edi = 0;
  esi = 0;
  ebp = 0;
  esp = 0;
  ebx = 0;
  edx = 0;
  ecx = 0;
  eax = 0;
  num = 0;
  err = 0;
  eip = 0;
  cs = 0;
  eflags = 0;
  useresp = 0;
  ss = 0;
  vm86_es = 0;
  vm86_ds = 0;
  vm86_fs = 0;
  vm86_gs = 0;
  vm86_start = 0;
  vm86_active = 0;
  vm86_if = 0;
  vm86_saved_eip = 0;
  vm86_saved_esp = 0;
  vm86_saved_eflags = 0;
  sys_eip = 0;
  sys_esp = 0;
  usr_eip = 0;
  usr_esp = 0;
  fxdata = 0;
  id = 0;
  state = 0;
  flags = 0;
  tick = 0;
  next = 0;
  event = 0;
  next_evqueue = 0;
  next_dead = 0;
  fault = 0;
  fault_addr = 0;
  next_fault = 0;
  pctx = 0;
}

-- `sizeof(struct thread)`, a packed structure, and the offsets of `num`, `vm86_es`, `vm86_start`.
abbrev pub thread_size : ℕ
thread_size = 170

abbrev pub num_offset : ℕ
num_offset = 36

abbrev pub vm86_es_offset : ℕ
vm86_es_offset = 64

abbrev pub vm86_start_offset : ℕ
vm86_start_offset = 80

pub record TRegs : Type 0 where
  pub edi : ℕ
  pub esi : ℕ
  pub ebp : ℕ
  pub esp : ℕ
  pub ebx : ℕ
  pub edx : ℕ
  pub ecx : ℕ
  pub eax : ℕ
  pub eip : ℕ
  pub eflags : ℕ
  pub fxdata : Fpu

pub record TInfo : Type 0 where
  pub id : ℕ
  pub pctx : ℕ
  pub state : ℕ
  pub flags : ℕ
  pub event : ℕ
  pub fault : ℕ
  pub fault_addr : ℕ
  pub sched_priority : ℕ
  pub sched_flags : ℕ
  pub sched_ticks : ℕ
  pub usr_ip : ℕ
  pub usr_sp : ℕ
  pub regs : TRegs
