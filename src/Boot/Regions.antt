-- ===== src/Boot/Regions.antt =====
-- What `init` of src/kernel/init.c keeps of a memory region, and the handlers that it registers.
use pinion.Base.{
  ℕ, ◌+◌, ◌≤◌, ◌<◌, ◌≡◌, refl, arith, Option, none, some, Ensures, ltb, if◌then◌else◌, ◌==◌,
}
use pinion.Vm.{kernel_boot_size}
use pinion.Kernel.{Kernel, Handler, kcalls, generic_faults, page_faults, double_faults}
use pinion.Interrupt.{int_set_handler}
use pinion.Boot.{Region, trim, register_handlers}

-- What is left of the region `r`, whose end is that of `r`.
abbrev pub Above : Region → Option Region → Type 0
Above r none = r.base + r.length < kernel_boot_size
Above r (some t) =
    (kernel_boot_size ≤ t.base) × (t.base + t.length ≡ r.base + r.length) × (r.base ≤ t.base)

-- A region is trimmed to what lies above the boot frames, up to its old end; it is left out just where
-- it ends below them.
pub trim-Above : (r : Region) → Above r (trim r)
unfolding trim
trim-Above r = ground arith

-- The handler of each vector after `init`.
abbrev pub handler_of : (ℕ → Handler) → ℕ → Handler
handler_of old n =
    if n == 0x81
    then kcalls
    else if n == 0x08
    then double_faults
    else if n == 0x0E
    then page_faults
    else if ltb n 20
    then if n == 0x0F then old n else generic_faults
    else old n

pub register_handlers-handler_of :
    (k : Kernel)
    → Ensures (register_handlers k) (λ _ l.
      (l ≡ record k { int_handlers = l.int_handlers })
      × ((n : ℕ) → l.int_handlers n ≡ handler_of k.int_handlers n))
unfolding register_handlers int_set_handler
register_handlers-handler_of k = (refl, λ n. ground arith)
