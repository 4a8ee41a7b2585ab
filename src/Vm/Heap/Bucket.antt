-- ===== src/Vm/Heap/Bucket.antt =====
-- The buckets of src/kernel/heap.c: which sizes they serve, and a freed block that is handed out again.
use pinion.Base.{
  ℕ, zero, suc, ◌+◌, ◌*◌, ◌^◌, ◌≤◌, ◌<◌, ◌≡◌, refl, ◌≢◌, inl, inr, arith, Ensures, lt→ltb, le→ltb,
  false, ==_refl, leb, ltb, ◌==◌, if◌then◌else◌, ◌>>◌, Bool-cases, true, ==_ne,
}
use pinion.Vm.{Vm, null}
use pinion.Vm.Heap.{word_size, bucket_loop, find_bucket, heap_free, heap_alloc, heap_take}

-- `b` is the first bucket from `i` on whose blocks hold `size` bytes.
abbrev pub Fits : ℕ → ℕ → ℕ → Type 0
Fits i size b =
    (i ≤ b) × (size ≤ word_size * 2 ^ b) × ((j : ℕ) → i ≤ j → j < b → word_size * 2 ^ j < size)

from_next :
    (i b size : ℕ)
    → word_size * 2 ^ i < size
    → ((j : ℕ) → i + 1 ≤ j → j < b → word_size * 2 ^ j < size)
    → (j : ℕ) → i ≤ j
    → j < b
    → word_size * 2 ^ j < size
from_next i b size here next j low high = elim (Bool-cases (j == i)) [
  | inl same ↦ let e : j ≡ i = ground arith in rw e here
  | inr later ↦ next j (ground arith) high
]

bucket_loop-step :
    (left i size : ℕ)
    → bucket_loop (suc left) i size
      ≡ (if leb size (word_size * 2 ^ i) then i else bucket_loop left (i + 1) size)
unfolding bucket_loop
bucket_loop-step left i size = refl

bucket_loop-here :
    (left i size : ℕ)
    → leb size (word_size * 2 ^ i) ≡ true
    → Fits i size (bucket_loop (suc left) i size) × (bucket_loop (suc left) i size ≤ i + left)
bucket_loop-here left i size fits =
    rw (bucket_loop-step left i size, fits)
      ((omega arith, ground arith, λ j low high. absurd (omega arith)), omega arith)

bucket_loop-Fits :
    (left i size : ℕ)
    → size ≤ word_size * 2 ^ (i + left)
    → Fits i size (bucket_loop (suc left) i size) × (bucket_loop (suc left) i size ≤ i + left)
bucket_loop-Fits zero i size top = bucket_loop-here zero i size (ground arith)
bucket_loop-Fits (suc left) i size top = elim (Bool-cases (leb size (word_size * 2 ^ i))) [
  | inl fits ↦ bucket_loop-here (suc left) i size fits
  | inr big ↦
      let same : i + 1 + left ≡ i + suc left = omega arith in
      let f : Fits (i + 1) size (bucket_loop (suc left) (i + 1) size)
          × (bucket_loop (suc left) (i + 1) size ≤ i + 1 + left) =
        bucket_loop-Fits left (i + 1) size (rw same top) in
      rw (bucket_loop-step (suc left) i size, big)
        ((omega (arith, f.0.0), f.0.1, from_next i _ size (ground arith) f.0.2), omega (arith, f.1))
]

-- `find_bucket` of a size of at most 128 KiB is the smallest bucket whose blocks hold that many
-- bytes, one of the sixteen that the heap has.
pub find_bucket-Fits :
    (size : ℕ) → size ≤ 2 ^ 17 → Fits 0 size (find_bucket size) × (find_bucket size < 16)
unfolding find_bucket
find_bucket-Fits size h =
    let f = bucket_loop-Fits 15 0 size (omega arith) in (f.0, omega (arith, f.1))

-- A block of at most 128 KiB that is freed is the one that the next `heap_alloc` of that size
-- returns, and the heap's free lists are then what they were.
pub heap_free-heap_alloc :
    (v : Vm) (ptr size : ℕ)
    → size ≤ 2 ^ 17
    → ptr ≢ null
    → Ensures ((heap_free ptr size >> heap_alloc size) v) (λ r w.
      (r ≡ ptr)
      × ((b : ℕ) → w.heap_bucket b ≡ v.heap_bucket b)
      × ((p : ℕ) → p ≢ ptr → w.block_next p ≡ v.block_next p))
unfolding heap_free heap_alloc heap_take
heap_free-heap_alloc v ptr size h n =
    let b = find_bucket size in
    let small : b < 16 = (find_bucket-Fits size h).1 in
    let valid : ltb b 16 ≡ true = lt→ltb b 16 small in
    let served : ltb 16 b ≡ false = le→ltb 16 b (omega (arith, small)) in
    rw (valid, served, ==_refl b, ==_ne ptr null n, ==_refl b, ==_refl ptr)
      (rw (==_ne ptr null n) (refl, λ c. ground arith, λ p ne. ground arith))
