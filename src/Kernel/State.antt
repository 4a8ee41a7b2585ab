-- ===== src/Kernel/State.antt =====
-- The kernel's state, and access to thread structures through pointers.
use pinion.Base.{
  ℕ, List, ◌∷◌, Bool, ok, crash, Cmd, focus, modify, ◌==◌, if◌then◌else◌, update, null_pointer,
}
use pinion.Vm.{Vm, null}
use pinion.Kernel.Struct.{Thread, TInfo, Fpu}

-- `struct evqueue`; its fields `ev_head` and `ev_tail` are never used.
pub record EvQueue : Type 0 where
  pub front_thread : ℕ
  pub back_thread : ℕ

-- The functions that `init` registers as interrupt handlers.
pub data Handler : Type 0 where
  no_handler kcalls generic_faults page_faults double_faults timer : Handler

-- `mem`: the thread structures in the kernel heap, by address. `fx_mem`: the FPU save areas.
-- `info`: the `t_info` structures in the caller's memory. `ports`: what was written to I/O
-- ports, newest first. `fpu`, `can_use_fpu`, `cr2` and `esp0` are the processor's and the TSS's.
pub record Kernel : Type 0 where
  pub vm : Vm
  pub mem : ℕ → Thread
  pub fx_mem : ℕ → Fpu
  pub info : ℕ → TInfo
  pub thread_table : ℕ → ℕ
  pub active_thread : ℕ
  pub sched_head : ℕ
  pub sched_tail : ℕ
  pub evqueue : ℕ → EvQueue
  pub irqstate : ℕ → ℕ
  pub dead_tail : ℕ
  pub dead_head : ℕ
  pub reaper_tail : ℕ
  pub reaper_head : ℕ
  pub fault_head : ℕ
  pub fault_tail : ℕ
  pub debug_head : ℕ
  pub debug_tail : ℕ
  pub int_handlers : ℕ → Handler
  pub irq_mask_word : ℕ
  pub ticks : ℕ
  pub pit_freq : ℕ
  pub ports : List (ℕ × ℕ)
  pub fpu : Fpu
  pub can_use_fpu : Bool
  pub esp0 : ℕ
  pub cr2 : ℕ

abbrev pub KCmd : Type 0 → Type 0
KCmd A = Cmd Kernel A

-- A call of the memory manager.
abbrev pub in_vm : {A : Type 0} → Cmd Vm A → KCmd A
in_vm = focus (λ k. k.vm) (λ k v. record k { vm = v })

-- `*t` and `t->field = …`.
unfoldable pub load : ℕ → KCmd Thread
load t k = if t == null then crash null_pointer else ok (k.mem t) k

unfoldable pub edit : ℕ → (Thread → Thread) → KCmd (Unit {0})
edit t f k =
    if t == null
    then crash null_pointer
    else ok tt (record k { mem = update k.mem t (f (k.mem t)) })

unfoldable pub outb : ℕ → ℕ → KCmd (Unit {0})
outb port value = modify (λ k. record k { ports = (port, value) ∷ k.ports })
