-- ===== src/Thread/Table/Load.antt =====
-- What loading and saving a thread leaves alone.
use pinion.Base.{ℕ, ◌≡◌, ◌≢◌, Ensures, arith}
use pinion.Vm.{null}
use pinion.Vm.Pctx.{pctx_load}
use pinion.Kernel.{Kernel}
use pinion.Thread.Table.{thread_load, thread_save}

-- `l` is `k` but for the processor, the save areas and the memory manager.
abbrev pub SameButCpu : Kernel → Kernel → Type 0
SameButCpu k l = l ≡ record k {
  vm = l.vm;
  fx_mem = l.fx_mem;
  fpu = l.fpu;
  esp0 = l.esp0;
  active_thread = l.active_thread;
}

pub thread_load-active :
    (t : ℕ) (k : Kernel)
    → t ≢ null
    → Ensures (thread_load t k) (λ r l. (l.active_thread ≡ t) × SameButCpu k l)
unfolding thread_load pctx_load
thread_load-active t k n = ground arith

pub thread_save-active :
    (t : ℕ) (k : Kernel)
    → Ensures (thread_save t k) (λ r l. (l.active_thread ≡ null) × SameButCpu k l)
unfolding thread_save
thread_save-active t k = ground arith
