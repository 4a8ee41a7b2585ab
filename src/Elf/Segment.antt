-- ===== src/Elf/Segment.antt =====
-- What `elf_load_phdr` of src/kernel/elf.c leaves in memory.
use pinion.Base.{true, get, ◌>>=◌, ◌>>◌, ltb, if◌then◌else◌, ℕ, ◌+◌, ◌-◌, ◌%◌, ◌≤◌, ◌<◌, ◌≡◌, ◌⊎◌}
use pinion.Vm.{Vm, u32}
use pinion.Vm.Page.{mapped}
use pinion.Bytes.{Bytes, memcpy, memclr}
use pinion.Bytes.Copy.{Disjoint}
use pinion.Elf.{LoadCmd, write_bytes, p_type, p_offset, p_vaddr, p_filesz, p_memsz, pt_load}

-- The header at `phdr` describes a segment that fits into memory, in a place that overlaps neither
-- the header nor the segment's bytes in the file.
pub record Loadable (b : Bytes) (file phdr : ℕ) : Type 0 where
  pub kind : p_type b phdr ≡ pt_load
  pub sizes : p_filesz b phdr ≤ p_memsz b phdr
  pub fits : p_vaddr b phdr + p_memsz b phdr < u32
  pub in_file : file + p_offset b phdr + p_filesz b phdr < u32
  pub apart : Disjoint (p_vaddr b phdr) (file + p_offset b phdr) (p_filesz b phdr)
  pub clear_of : (phdr + 32 ≤ p_vaddr b phdr) ⊎ (p_vaddr b phdr + p_memsz b phdr ≤ phdr)

-- The bytes `b` with the segment loaded: the part in the file, the cleared rest, and all others.
abbrev pub loaded : Bytes → ℕ → ℕ → Bytes
loaded b file phdr p =
    let place = p - p_vaddr b phdr in
    if ltb p (p_vaddr b phdr)
    then b p
    else if ltb place (p_filesz b phdr)
    then b (file + p_offset b phdr + place)
    else if ltb place (p_memsz b phdr)
    then 0
    else b p

record Parts (b : Bytes) (file phdr : ℕ) (c : Bytes) : Type 0 where
  text : (j : ℕ) → j < p_filesz b phdr → c (p_vaddr b phdr + j) ≡ b (file + p_offset b phdr + j)
  rest : (j : ℕ) → p_filesz b phdr ≤ j → j < p_memsz b phdr → c (p_vaddr b phdr + j) ≡ 0
  others : (p : ℕ) → ((p < p_vaddr b phdr) ⊎ (p_vaddr b phdr + p_memsz b phdr ≤ p)) → c p ≡ b p

-- The two steps of `load_segment` on the bytes.
abbrev copied : Bytes → ℕ → ℕ → Bytes
copied b file phdr = memcpy (p_vaddr b phdr) ((file + p_offset b phdr) % u32) (p_filesz b phdr) b

abbrev cleared : ℕ → ℕ → Bytes → Bytes
cleared dst phdr b =
    memclr ((dst + p_filesz b phdr) % u32) ((p_memsz b phdr + u32 - p_filesz b phdr) % u32) b

-- The pages of `size` bytes from `p` on are there.
abbrev pub Mapped : ℕ → ℕ → Vm → Type 0
Mapped p size v = (i : ℕ) → i < size → mapped v (p + i) ≡ true

-- What `load_segment` does when `mem_alloc` has returned.
abbrev filling : ℕ → ℕ → Bytes → LoadCmd (Unit {0})
filling file phdr b =
    write_bytes (p_vaddr b phdr) (p_filesz b phdr)
      (memcpy (p_vaddr b phdr) ((file + p_offset b phdr) % u32) (p_filesz b phdr))
    >> (get >>= λ t.
        write_bytes ((p_vaddr b phdr + p_filesz t.bytes phdr) % u32)
          ((p_memsz t.bytes phdr + u32 - p_filesz t.bytes phdr) % u32)
          (memclr ((p_vaddr b phdr + p_filesz t.bytes phdr) % u32)
            ((p_memsz t.bytes phdr + u32 - p_filesz t.bytes phdr) % u32)))
