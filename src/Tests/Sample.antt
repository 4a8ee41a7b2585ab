-- ===== src/Tests/Sample.antt =====
-- A machine with a few threads: 100 and 200 are in the scheduler's queue, 300 and 400 wait for event
-- 7, 500 runs, 600 and 700 are dead, 800 and 900 have faulted.
use pinion.Base.{ℕ, refl, arith, ◌∷◌, ◌*◌, ◌/◌, [], false, if◌then◌else◌, ◌==◌, update}
use pinion.Vm.{Vm, FrameStruct}
use pinion.Thread.Sched.Fifo.{IsSched}
use pinion.Kernel.{
  Thread, zero_thread, Kernel, EvQueue, TInfo, TRegs, no_handler, ts_queued, ts_running, ts_waiting,
  ts_paused,
}

abbrev pub empty_frame : FrameStruct
empty_frame = record { next = 0; prev = 0; refc = 0; addr = 0 }

-- Frames 5 and 6 are free. Page directory entry 0 names the table in frame 2, entry 1 that in
-- frame 3; the directory is frame 1.
abbrev pub sample_frames : ℕ → FrameStruct
sample_frames p =
    if p == 50
    then record empty_frame { addr = 5; next = 60 }
    else if p == 60
    then record empty_frame { addr = 6; prev = 50 }
    else empty_frame

abbrev pub sample_phys : ℕ → ℕ → ℕ
sample_phys f i = if f == 1 then if i == 0 then 0x2003 else if i == 1 then 0x3003 else 0 else 0

abbrev pub sample_vm : Vm
sample_vm = record {
  frames = sample_frames;
  frame_list = 50;
  frame_hash = λ _. 0;
  out_of_memory = false;
  oom_pool = 0x80_0000;
  kernel_end = 0x20_0000;
  phys = sample_phys;
  cr3 = 0x1000;
  block_next = λ _. 0;
  heap_bucket = λ _. 0;
  analysis = λ _. 0;
  brk = 0xF100_0000;
  pctx_table = λ _. 0;
  active_pctx = 0;
}

abbrev pub sample_mem : ℕ → Thread
sample_mem p =
    let t = record zero_thread { id = p / 100 } in
    if p == 100
    then record t { state = ts_queued; next = 200 }
    else if p == 200
    then record t { state = ts_queued }
    else if p == 300
    then record t { state = ts_waiting; event = 7; next_evqueue = 400 }
    else if p == 400
    then record t { state = ts_waiting; event = 7 }
    else if p == 500
    then record t { state = ts_running; ebx = 2; cs = 0x2B; eip = 0x1234 }
    else if p == 600
    then record t { state = ts_paused; next_dead = 700 }
    else if p == 800
    then record t { state = ts_paused; next_fault = 900 }
    else record t { state = ts_paused }

abbrev pub sample_regs : TRegs
sample_regs = record {
  edi = 0;
  esi = 0;
  ebp = 0;
  esp = 0;
  ebx = 0;
  edx = 0;
  ecx = 0;
  eax = 0;
  eip = 0;
  eflags = 0;
  fxdata = [];
}

abbrev pub sample_info : TInfo
sample_info = record {
  id = 0;
  pctx = 0;
  state = 0;
  flags = 0;
  event = 0;
  fault = 0;
  fault_addr = 0;
  sched_priority = 0;
  sched_flags = 0;
  sched_ticks = 0;
  usr_ip = 0;
  usr_sp = 0;
  regs = sample_regs;
}

abbrev pub no_waiters : EvQueue
no_waiters = record { front_thread = 0; back_thread = 0 }

abbrev pub sample_kernel : Kernel
sample_kernel = record {
  vm = sample_vm;
  mem = sample_mem;
  fx_mem = λ _. [];
  info = λ _. sample_info;
  thread_table = λ i. if i == 0 then 0 else i * 100;
  active_thread = 500;
  sched_head = 100;
  sched_tail = 200;
  evqueue = update (λ _. no_waiters) 7 (record { front_thread = 300; back_thread = 400 });
  irqstate = λ _. 0;
  dead_tail = 600;
  dead_head = 700;
  reaper_tail = 0;
  reaper_head = 0;
  fault_head = 900;
  fault_tail = 800;
  debug_head = 0;
  debug_tail = 0;
  int_handlers = λ _. no_handler;
  irq_mask_word = 0;
  ticks = 0;
  pit_freq = 1024;
  ports = [];
  fpu = [];
  can_use_fpu = false;
  esp0 = 0;
  cr2 = 0;
}

pub sample-IsSched : IsSched sample_kernel (100 ∷ 200 ∷ [])
sample-IsSched = record {
  chain = (refl, omega arith, (refl, omega arith, refl));
  last = refl;
  distinct = (refl, (refl, tt));
}
