-- ===== src/Interrupt/Entry/Model.antt =====
-- What the interrupts that reach `int_handler` of src/kernel/interrupt.c mean to the machine of
-- Interrupt.Wakeups.Model.
use pinion.Base.{
  ℕ, suc, zero, ◌+◌, ◌-◌, ◌%◌, ◌^◌, ◌≡◌, ◌≢◌, ◌<◌, ◌≤◌, bit_and, List, [], ◌∷◌, ◌++◌, ◌∉◌, Bool,
  true, false, not, length, update, modify, pure, ◌>>=◌, ◌>>◌, ◌==◌, if◌then◌else◌,
}
use pinion.Vm.{u32, null}
use pinion.Kernel.{
  Thread, Kernel, KCmd, edit, no_handler, kcalls, page_faults, timer, minus_one, tf_user, ev_vtimer,
}
use pinion.Thread.Fault.Pull.{IsFaulty}
use pinion.Thread.Fault.Push.{faultlink_of}
use pinion.Irq.{irq_int_size}
use pinion.Interrupt.{int_handler, irq_int_base, timer_bits}
use pinion.Interrupt.Model.{tick, yield, rest, pause, resume, run_next, Sane}
use pinion.Interrupt.Wakeups.Model.{
  Step, does, wait, signal, reset, Machine, model_step, StepPossible, Attended,
}

-- What a thread asks the kernel for. `rests` is KCALL_PAUSE of the thread itself.
pub data Request : Type 0 where
  yields rests : Request
  pauses resumes waits resets : ℕ → Request

-- The number of the call, in `eax`, and its argument, in `ebx`.
abbrev pub number : Request → ℕ
number yields = 0x04
number rests = 0x05
number (pauses id) = 0x05
number (resumes id) = 0x06
number (waits n) = 0x0D
number (resets n) = 0x0E

abbrev pub argument : Request → ℕ
argument yields = 0
argument rests = minus_one
argument (pauses id) = id
argument (resumes id) = id
argument (waits n) = n
argument (resets n) = n

abbrev pub step_of : Request → Step
step_of yields = does yield
step_of rests = does rest
step_of (pauses id) = does (pause id)
step_of (resumes id) = does (resume id)
step_of (waits n) = wait n
step_of (resets n) = reset n

-- An interrupt: a tick of the timer, one of a device, a page fault at an address, or a kernel call.
pub data Trap : Type 0 where
  clock : Trap
  irq page_fault : ℕ → Trap
  request : Request → Trap

-- What the entry code and the caller put into the thread's structure.
abbrev pub trap_regs : Trap → Thread → Thread
trap_regs clock s = record s { num = irq_int_base }
trap_regs (irq n) s = record s { num = irq_int_base + n }
trap_regs (page_fault addr) s = record s { num = 0x0E }
trap_regs (request r) s = record s { num = 0x81; eax = number r; ebx = argument r }

-- What the processor itself records.
abbrev pub cpu_state : Trap → Kernel → Kernel
cpu_state clock k = k
cpu_state (irq n) k = k
cpu_state (page_fault addr) k = record k { cr2 = addr }
cpu_state (request r) k = k

-- The interrupt while thread `t` runs: the thread that runs then.
unfoldable pub take_trap : Trap → ℕ → KCmd ℕ
take_trap trap t = modify (cpu_state trap) >> (edit t (trap_regs trap) >> int_handler t)

unfoldable pub run_traps : List Trap → ℕ → KCmd ℕ
run_traps [] t = pure t
run_traps (trap ∷ traps) t = take_trap trap t >>= run_traps traps

-- The machine with the timer and the fault queue. `user`: which threads run in user mode. `rings`:
-- the privilege level of each thread's code segment. `faulty`: the threads that have faulted, the
-- oldest first.
pub record Clocked : Type 0 where
  pub machine : Machine
  pub ticks : ℕ
  pub freq : ℕ
  pub user : ℕ → Bool
  pub rings : ℕ → ℕ
  pub faulty : List ℕ

abbrev pub running_of : Clocked → ℕ
running_of c = c.machine.base.running

-- The events of the virtual timers from `i` on whose bits are set in `time`.
abbrev pub fired : ℕ → ℕ → ℕ → List ℕ
fired zero time i = []
fired (suc left) time i =
    let rest = fired left time (i + 1) in
    if bit_and time (2 ^ (15 - i)) == 0 then rest else ev_vtimer i ∷ rest

abbrev pub signals : List ℕ → Machine → Machine
signals [] m = m
signals (n ∷ ns) m = signals ns (model_step (signal n) m)

abbrev pub next_tick : Clocked → ℕ
next_tick c = (c.ticks + 1) % u32

abbrev pub model_trap : Trap → Clocked → Clocked
model_trap clock c = record c {
  machine =
      model_step (does tick) (signals (fired 16 (timer_bits (next_tick c) c.freq) 0) c.machine);
  ticks = next_tick c;
}
model_trap (irq n) c = record c { machine = model_step (signal n) c.machine }
model_trap (page_fault addr) c = record c {
  machine = record c.machine {
    base = run_next c.machine.base.queue (record c.machine.base {
      paused = update c.machine.base.paused c.machine.base.running true;
    });
  };
  faulty = c.faulty ++ c.machine.base.running ∷ [];
}
model_trap (request r) c = record c { machine = model_step (step_of r) c.machine }

abbrev pub model_traps : List Trap → Clocked → Clocked
model_traps [] c = c
model_traps (trap ∷ traps) c = model_traps traps (model_trap trap c)

-- The timer has a frequency; a device's IRQ is one of the others; a thread faults outside the kernel,
-- for the first time, while another one is queued; and a thread that asks for what is possible is not
-- in user mode.
abbrev pub TrapPossible : Trap → Clocked → Type 0
TrapPossible clock c = c.freq ≢ 0
TrapPossible (irq n) c = (1 ≤ n) × (n < irq_int_size)
TrapPossible (page_fault addr) c =
    (c.rings (running_of c) ≢ 0) × (running_of c ∉ c.faulty) × (length c.machine.base.queue ≢ 0)
TrapPossible (request r) c = StepPossible (step_of r) c.machine × (c.user (running_of c) ≡ false)

abbrev pub AllTrapsPossible : List Trap → Clocked → Type 0
AllTrapsPossible [] c = Unit {0}
AllTrapsPossible (trap ∷ traps) c = TrapPossible trap c × AllTrapsPossible traps (model_trap trap c)

-- The timer, the threads' modes and the fault queue are `c`'s; the timer, page faults and the kernel
-- calls have their handlers, and the devices none; and no debugger waits.
pub record Clockwork (c : Clocked) (k : Kernel) : Type 0 where
  pub ticks : k.ticks ≡ c.ticks
  pub freq : k.pit_freq ≡ c.freq
  pub user : (p : ℕ) → (bit_and (k.mem p).flags tf_user == 0) ≡ not (c.user p)
  pub rings : (p : ℕ) → bit_and (k.mem p).cs 0x3 ≡ c.rings p
  pub faulty : IsFaulty k c.faulty
  pub clear : (p : ℕ) → p ∉ c.faulty → p ≢ null → faultlink_of k p ≡ null
  pub no_debugger : k.debug_tail ≡ null
  pub faults_of : k.int_handlers 0x0E ≡ page_faults
  pub timer_of : k.int_handlers irq_int_base ≡ timer
  pub calls_of : k.int_handlers 0x81 ≡ kcalls
  pub irqs_of : (n : ℕ) → 1 ≤ n → n < irq_int_size → k.int_handlers (irq_int_base + n) ≡ no_handler

-- The thread `r` runs, and the kernel is in the state that `c` describes.
pub record Tracks (c : Clocked) (r : ℕ) (k : Kernel) : Type 0 where
  pub running : r ≡ running_of c
  pub sane : Sane c.machine.base k
  pub attended : Attended c.machine k
  pub clockwork : Clockwork c k
