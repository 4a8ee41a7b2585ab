-- ===== src/Tests/Loading.antt =====
-- Memory, the loader, the processor's tables and number output at concrete inputs.
use pinion.Base.{
  Run, ok, crash, ℕ, ◌≡◌, ◌+◌, ◌*◌, inl, inr, arith, Ensures, ◌==◌, if◌then◌else◌, false, ◌%◌,
}
use pinion.Bytes.{Bytes, memcpy}
use pinion.Bytes.Copy.{with_copy, memcpy-with_copy}
use pinion.Elf.{Loader}
use pinion.Descriptor.{Gate, Tables, init_idt}
use pinion.Descriptor.Gates.{IsGate, init_idt-IsGate}
use pinion.Kernel.{Kernel}
use pinion.Debug.{itoa}
use pinion.Debug.Itoa.{Printed, itoa-Printed}
use pinion.Tests.Sample.{sample_kernel, sample_vm}

memcpy-with_copy_example :
    memcpy 0x200 0x100 16 (λ p. p) 0x208 ≡ with_copy 0x200 0x100 16 (λ p. p) 0x208
memcpy-with_copy_example =
    memcpy-with_copy 0x200 0x100 16 (λ p. p) 0x208 (omega arith) (omega arith) (inr (omega arith))

-- A header at 52 of a file at 0: type 1, offset 0x60, address 0x3000, 4 bytes in the file of 8.
abbrev file : Bytes
file p =
    if p == 52
    then 1
    else if p == 56
    then 0x60
    else if p == 61
    then 0x30
    else if p == 68
    then 4
    else if p == 72
    then 8
    else if 0x60 == p
    then 0xAB
    else 0

abbrev loader : Loader
loader = record { vm = sample_vm; bytes = file }

abbrev no_gate : Gate
no_gate = record { base_l = 0; seg = 0; reserved = 0; flags = 0; base_h = 0 }

abbrev tables : Tables
tables = record {
  idt = λ _. no_gate;
  gdt = λ _. 0;
  tss = record {
    prev_tss = 0;
    esp0 = 0;
    ss0 = 0;
    es = 0;
    cs = 0;
    ss = 0;
    ds = 0;
    fs = 0;
    gs = 0;
    ldt = 0;
    trap = 0;
    iomap_base = 0;
  };
  idt_loaded = false;
  tss_loaded = false;
  is_init = false;
}

abbrev stubs : ℕ → ℕ
stubs i = 0x100000 + i % 256 * 16

init_idt-IsGate_example :
    IsGate (stubs 14) 0x8E ((init_idt stubs 0x110000 tables).idt 14)
    × IsGate (stubs 129) 0xEE ((init_idt stubs 0x110000 tables).idt 129)
    × ((init_idt stubs 0x110000 tables).idt 200 ≡ no_gate)
init_idt-IsGate_example =
    init_idt-IsGate stubs 0x110000 tables 14 200 (λ i. (omega arith, omega arith))
      (inl (omega arith)) (omega arith) (omega arith) (inr (omega arith))

itoa-Printed_example : Ensures (itoa 0xBEEF 16 (λ _. 0)) (λ _ l. Printed 16 0xBEEF 10 (λ _. 0) l)
itoa-Printed_example = itoa-Printed 0xBEEF 16 (λ _. 0) (omega arith) (omega arith) (omega arith)

-- The heap has a free block for a thread and one for its save area.
abbrev stocked : Kernel
stocked = record sample_kernel {
  vm = record sample_vm { heap_bucket = λ b. if b == 6 then 5000 else if b == 7 then 6000 else 0 };
}

abbrev final : {A : Type 0} → Run Kernel A → Kernel
final (ok a k) = k
final (crash c) = sample_kernel
