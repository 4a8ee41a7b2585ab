-- ===== src/Boot/First.antt =====
-- The first thread that `init` of src/kernel/init.c starts.
use pinion.Base.{ℕ, ◌+◌, ◌≡◌, ◌==◌, update, if◌then◌else◌, bit_or}
use pinion.Kernel.{num_offset, Thread, Kernel, timer, ts_running}
use pinion.Boot.{start_thread}
use pinion.Boot.Regions.{handler_of}

-- `t` runs from `entry` on the stack `stack_top`, in the code, stack and data segments of the system
-- layer, and takes interrupts; the entry code will save its registers from `num` on.
pub record Started (stack_top eflags entry t : ℕ) (k l : Kernel) : Type 0 where
  pub active : l.active_thread ≡ t
  pub state : (l.mem t).state ≡ ts_running
  pub eip : (l.mem t).eip ≡ entry
  pub useresp : (l.mem t).useresp ≡ stack_top
  pub esp : (l.mem t).esp ≡ t + num_offset
  pub cs : (l.mem t).cs ≡ 0x19
  pub ss : (l.mem t).ss ≡ 0x21
  pub ds : (l.mem t).ds ≡ 0x21
  pub eflags_set : (l.mem t).eflags ≡ bit_or eflags 0x1200
  pub handlers :
      (n : ℕ) → l.int_handlers n ≡ (if n == 32 then timer else handler_of k.int_handlers n)
  pub frequency : l.pit_freq ≡ 64

-- The kernel with the thread `t` filled in.
abbrev filled : ℕ → ℕ → ℕ → ℕ → Kernel → Kernel
filled t stack_top eflags entry k = record k {
  mem = update k.mem t (start_thread t stack_top eflags entry (k.mem t));
}
