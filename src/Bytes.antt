-- ===== src/Bytes.antt =====
-- src/kernel/memcpy.c and src/kernel/memclr.c over a store of bytes by address, and integers and
-- strings that stand in such a store.
pub mod Copy
use pinion.Base.{ℕ, zero, suc, ◌+◌, ◌*◌, ◌%◌, ◌^◌, List, [], ◌∷◌, update, ◌==◌, if◌then◌else◌}
use pinion.Vm.{u32}

abbrev pub Bytes : Type 0
Bytes = ℕ → ℕ

-- `left` rounds of the loop of `memcpy`, from byte `i` on. Addresses wrap around.
unfoldable pub copy_loop : ℕ → ℕ → ℕ → ℕ → Bytes → Bytes
copy_loop zero d s i b = b
copy_loop (suc left) d s i b =
    copy_loop left d s (i + 1) (update b ((d + i) % u32) (b ((s + i) % u32)))

unfoldable pub memcpy : ℕ → ℕ → ℕ → Bytes → Bytes
memcpy d s n b = copy_loop n d s 0 b

-- `left` rounds of the loop of `memclr`, from byte `i` on.
unfoldable pub clear_loop : ℕ → ℕ → ℕ → Bytes → Bytes
clear_loop zero s i b = b
clear_loop (suc left) s i b = clear_loop left s (i + 1) (update b ((s + i) % u32) 0)

unfoldable pub memclr : ℕ → ℕ → Bytes → Bytes
memclr s n b = clear_loop n s 0 b

-- A little-endian `uint16_t` or `uint32_t` at an address.
unfoldable pub half : Bytes → ℕ → ℕ
half b p = b p + b (p + 1) * 2 ^ 8

unfoldable pub word : Bytes → ℕ → ℕ
unfolding half
word b p = half b p + half b (p + 2) * 2 ^ 16
