-- ===== src/Elf.antt =====
-- The loader of src/kernel/elf.c with the header structures of src/kernel/elf.h. The structures are
-- read from memory field by field, each time that the source reads them, since a segment may be
-- copied over them.
pub mod Segment
use pinion.Base.{
  ℕ, zero, suc, ◌+◌, ◌-◌, ◌*◌, ◌%◌, ◌^◌, bit_and, bit_or, Bool, true, false, fail, panic, ◌||◌, not,
  Run, ok, Cmd, pure, get, modify, focus, when, ◌>>=◌, ◌>>◌, ltb, ◌==◌, if◌then◌else◌,
}
use pinion.Vm.{Vm, u32, pf_pres, pf_rw, pf_user}
use pinion.Vm.Page.{mem_alloc, mapped}
use pinion.Bytes.{Bytes, memcpy, memclr, half, word}

-- The memory manager, and the bytes at the virtual addresses of the current address space; at an
-- address that is not mapped yet, the byte that its page will show.
pub record Loader : Type 0 where
  pub vm : Vm
  pub bytes : Bytes

abbrev pub LoadCmd : Type 0 → Type 0
LoadCmd A = Cmd Loader A

abbrev pub with_bytes : (Bytes → Bytes) → LoadCmd (Unit {0})
with_bytes f = modify (λ s. record s { bytes = f s.bytes })

-- Whether `size` bytes from `p` on are mapped.
unfoldable pub all_mapped : ℕ → ℕ → Vm → Bool
all_mapped zero p v = true
all_mapped (suc size) p v =
    let rest = all_mapped size (p + 1) v in if mapped v p then rest else false

-- A write to `size` bytes from `p` on. Where one of them is not mapped, it is a page fault of the
-- kernel itself, which is a panic.
unfoldable pub write_bytes : ℕ → ℕ → (Bytes → Bytes) → LoadCmd (Unit {0})
unfolding all_mapped
write_bytes p size f = do s ← get; if all_mapped size p s.vm then with_bytes f else fail panic

-- The fields of `struct elf32_ehdr`, by their offsets.
abbrev pub e_type : Bytes → ℕ → ℕ
e_type b file = half b (file + 16)

abbrev pub e_machine : Bytes → ℕ → ℕ
e_machine b file = half b (file + 18)

abbrev pub e_version : Bytes → ℕ → ℕ
e_version b file = word b (file + 20)

abbrev pub e_entry : Bytes → ℕ → ℕ
e_entry b file = word b (file + 24)

abbrev pub e_phoff : Bytes → ℕ → ℕ
e_phoff b file = word b (file + 28)

abbrev pub e_phnum : Bytes → ℕ → ℕ
e_phnum b file = half b (file + 44)

-- The fields of `struct elf32_phdr`, which has 32 bytes.
abbrev pub phdr_size : ℕ
phdr_size = 32

abbrev pub p_type : Bytes → ℕ → ℕ
p_type b phdr = word b phdr

abbrev pub p_offset : Bytes → ℕ → ℕ
p_offset b phdr = word b (phdr + 4)

abbrev pub p_vaddr : Bytes → ℕ → ℕ
p_vaddr b phdr = word b (phdr + 8)

abbrev pub p_filesz : Bytes → ℕ → ℕ
p_filesz b phdr = word b (phdr + 16)

abbrev pub p_memsz : Bytes → ℕ → ℕ
p_memsz b phdr = word b (phdr + 20)

abbrev pub p_flags : Bytes → ℕ → ℕ
p_flags b phdr = word b (phdr + 24)

abbrev pub et_exec : ℕ
et_exec = 2

abbrev pub em_386 : ℕ
em_386 = 3

abbrev pub pt_load : ℕ
pt_load = 1

abbrev pub pf_w : ℕ
pf_w = 0x2

unfoldable pub elf_check_file : ℕ → Bytes → ℕ
elf_check_file file b =
    if not (b file == 0x7F)
    then 1
    else if not (b (file + 1) == b'E')
    then 1
    else if not (b (file + 2) == b'L')
    then 1
    else if not (b (file + 3) == b'F')
    then 1
    else if not (e_type b file == et_exec)
    then 1
    else if not (e_machine b file == em_386)
    then 1
    else if not (e_version b file == 1)
    then 1
    else 0

-- The condition of the source is the whole disjunction.
unfoldable pub segment_flags : ℕ → ℕ
segment_flags flags = if bit_or (bit_or pf_user pf_pres) (bit_and flags pf_w) == 0 then 0 else pf_rw

-- A segment of type PT_LOAD.
unfoldable pub load_segment : ℕ → ℕ → LoadCmd (Unit {0})
unfolding segment_flags write_bytes
load_segment file phdr = do
  s ← get
  let seg_base = (file + p_offset s.bytes phdr) % u32
  let dst = p_vaddr s.bytes phdr
  focus (λ s. s.vm) (λ s v. record s { vm = v })
      (mem_alloc dst (p_memsz s.bytes phdr) (segment_flags (p_flags s.bytes phdr)))
  let size = p_filesz s.bytes phdr
  write_bytes dst size (memcpy dst seg_base size)
  t ← get
  let end = (dst + p_filesz t.bytes phdr) % u32
  let left = (p_memsz t.bytes phdr + u32 - p_filesz t.bytes phdr) % u32
  write_bytes end left (memclr end left)

unfoldable pub elf_load_phdr : ℕ → ℕ → LoadCmd (Unit {0})
unfolding load_segment
elf_load_phdr file phdr = do
  s ← get
  if p_type s.bytes phdr == pt_load then load_segment file phdr else pure tt

-- The loop of `elf_load_file`, with `left` rounds to go: `e_phnum` is at most 65535, and read again
-- before each round.
unfoldable pub load_loop : ℕ → ℕ → ℕ → ℕ → LoadCmd (Unit {0})
unfolding elf_load_phdr
load_loop zero file table i = pure tt
load_loop (suc left) file table i = do
  s ← get
  let rest = load_loop left file table (i + 1)
  if ltb i (e_phnum s.bytes file)
      then elf_load_phdr file ((table + i * phdr_size) % u32) >> rest
      else pure tt

unfoldable pub elf_load_file : ℕ → LoadCmd (Unit {0})
unfolding load_loop
elf_load_file file = do s ← get; load_loop 65536 file ((file + e_phoff s.bytes file) % u32) 0
