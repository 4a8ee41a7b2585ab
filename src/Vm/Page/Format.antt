-- ===== src/Vm/Page/Format.antt =====
-- `page_fmt` and `page_ufmt` of src/kernel/space.h.
use pinion.Base.{ℕ, ◌+◌, ◌*◌, ◌/◌, ◌%◌, ◌^◌, ◌≤◌, ◌<◌, ◌≡◌, bit_and, arith}
use pinion.Base.Bits.{or_fields, and_fields, bit_and-le, bit_and_idem, bit_and-zero, bit_and_mask}
use pinion.Vm.{page_fmt, page_ufmt, pf_mask, u32, page_size}

-- On 32-bit words, the macro's mask drops the lower twelve bits.
pub page_ufmt-aligned : (x : ℕ) → x < u32 → page_ufmt x ≡ x / page_size * page_size
unfolding page_ufmt
page_ufmt-aligned x h = ground (
  arith,
  and_fields 12 (x / 2 ^ 12) (x % 2 ^ 12) 0xFFFFF 0 (omega arith) (omega arith),
  bit_and_mask 20 (x / 2 ^ 12),
  bit_and-zero (x % 2 ^ 12),
)

-- An entry is its frame's address plus its flags.
pub page_fmt-sum :
    (base flags : ℕ)
    → base < u32
    → page_fmt base flags ≡ base / page_size * page_size + bit_and flags pf_mask
unfolding page_fmt page_ufmt
page_fmt-sum base flags h = rw (page_ufmt-aligned base h) (
    or_fields 12 (base / page_size) (bit_and flags pf_mask)
      (omega (arith, bit_and-le flags pf_mask)))

-- Of what `page_fmt` packs, on a 32-bit frame address, `page_ufmt` gives back the frame and the
-- mask the flags, cut to those that can be used.
pub page_fmt-fields :
    (base flags : ℕ)
    → base < u32
    → (page_ufmt (page_fmt base flags) ≡ base / page_size * page_size)
      × (bit_and (page_fmt base flags) pf_mask ≡ bit_and flags pf_mask)
page_fmt-fields base flags h =
    let q = base / page_size in
    let r = bit_and flags pf_mask in
    let small : r ≤ pf_mask = bit_and-le flags pf_mask in
    let sum : page_fmt base flags ≡ q * page_size + r = page_fmt-sum base flags h in
    (
      omega (arith, sum, page_ufmt-aligned (page_fmt base flags)),
      rw sum (
          omega (
            arith,
            and_fields 12 q r 0 pf_mask (omega arith) (omega arith),
            bit_and-zero q,
            bit_and_idem flags pf_mask,
          )),
    )
