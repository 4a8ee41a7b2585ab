-- ===== src/Descriptor.antt =====
-- The processor's tables that src/kernel/interrupt.c fills once: the IDT, and the TSS with its entry
-- of the GDT. The addresses of the assembly stubs `int0`, `int1` and so on and of the variable `tss`
-- are parameters.
pub mod Gates
use pinion.Base.{
  ℕ, zero, suc, ◌+◌, ◌-◌, ◌*◌, ◌/◌, ◌%◌, ◌^◌, Bool, true, false, ◌&&◌, ◌||◌, ltb, leb, ◌==◌,
  if◌then◌else◌, update,
}

-- `struct idt` and `struct tss` of src/kernel/cpu.h; `unused` of the latter is left out.
pub record Gate : Type 0 where
  pub base_l : ℕ
  pub seg : ℕ
  pub reserved : ℕ
  pub flags : ℕ
  pub base_h : ℕ

pub record Tss : Type 0 where
  pub prev_tss : ℕ
  pub esp0 : ℕ
  pub ss0 : ℕ
  pub es : ℕ
  pub cs : ℕ
  pub ss : ℕ
  pub ds : ℕ
  pub fs : ℕ
  pub gs : ℕ
  pub ldt : ℕ
  pub trap : ℕ
  pub iomap_base : ℕ

-- `sizeof(struct tss)`
abbrev pub tss_size : ℕ
tss_size = 104

-- `gdt` is the table's bytes. `idt_loaded` and `tss_loaded`: the processor has been told of them.
pub record Tables : Type 0 where
  pub idt : ℕ → Gate
  pub gdt : ℕ → ℕ
  pub tss : Tss
  pub idt_loaded : Bool
  pub tss_loaded : Bool
  pub is_init : Bool

abbrev zero_tss : Tss
zero_tss = record {
  prev_tss = 0;
  esp0 = 0;
  ss0 = 0;
  es = 0;
  cs = 0;
  ss = 0;
  ds = 0;
  fs = 0;
  gs = 0;
  ldt = 0;
  trap = 0;
  iomap_base = 0;
}

-- A null handler is ignored.
unfoldable pub idt_set : ℕ → ℕ → ℕ → ℕ → Tables → Tables
idt_set n base seg flags t = if base == 0 then t else record t {
  idt = update t.idt n (record {
    base_l = base % 2 ^ 16;
    base_h = base / 2 ^ 16 % 2 ^ 16;
    seg = seg;
    reserved = 0;
    flags = flags;
  });
}

-- The entry of the TSS, whose bytes 61 and 62 stay.
unfoldable pub init_tss : ℕ → Tables → Tables
init_tss base t =
    let limit = (base + tss_size - 1) % 2 ^ 16 in
    let g0 = update t.gdt 56 (limit % 256) in
    let g1 = update g0 57 (limit / 2 ^ 8 % 256) in
    let g2 = update g1 58 (base % 256) in
    let g3 = update g2 59 (base / 2 ^ 8 % 256) in
    let g4 = update g3 60 (base / 2 ^ 16 % 256) in
    let g5 = update g4 63 (base / 2 ^ 24 % 256) in
    record t {
      gdt = g5;
      tss = record zero_tss {
        cs = 0x08;
        ss0 = 0x10;
        es = 0x10;
        ds = 0x10;
        fs = 0x10;
        gs = 0x10;
        iomap_base = 104;
      };
      tss_loaded = true;
    }

module _ (stub : ℕ → ℕ) where
  -- The stubs of the faults and of the IRQs, in the array `idt_raw` of 64 entries.
  unfoldable pub idt_raw : ℕ → ℕ
  idt_raw i = if ltb i 20 || (leb 32 i && ltb i 48) then stub i else 0

  -- The loop of `init_idt`, with `left` rounds to go, from entry `i` on.
  unfoldable pub idt_loop : ℕ → ℕ → Tables → Tables
  unfolding idt_raw idt_set
  idt_loop zero i t = t
  idt_loop (suc left) i t =
      idt_loop left (i + 1) (if idt_raw i == 0 then t else idt_set i (idt_raw i) 0x08 0x8E t)

  unfoldable pub init_idt : ℕ → Tables → Tables
  unfolding idt_loop idt_set init_tss
  init_idt base t =
      let filled = idt_set 129 (stub 129) 0x08 0xEE (idt_loop 64 0 t) in
      init_tss base (record filled { idt_loaded = true })

  -- The start of `int_set_handler`.
  unfoldable pub ensure_init : ℕ → Tables → Tables
  unfolding init_idt
  ensure_init base t = if t.is_init then t else record (init_idt base t) { is_init = true }
