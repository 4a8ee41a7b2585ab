-- ===== src/Bytes/Copy.antt =====
-- What `memcpy` and `memclr` of src/kernel/memcpy.c and src/kernel/memclr.c leave in memory.
use pinion.Base.{
  ◌-◌, leb, ltb, ◌&&◌, if◌then◌else◌, subst, ℕ, zero, suc, ◌+◌, ◌%◌, ◌≤◌, ◌<◌, ◌≡◌, refl, ◌∙◌, ◌⊎◌,
  inl, inr, arith, ◌==◌, update, Bool-cases,
}
use pinion.Vm.{u32}
use pinion.Bytes.{Bytes, copy_loop, memcpy, clear_loop, memclr}

-- The `n` bytes from `d` on and those from `s` on have no byte in common.
abbrev pub Disjoint : ℕ → ℕ → ℕ → Type 0
Disjoint d s n = (d + n ≤ s) ⊎ (s + n ≤ d)

-- A byte outside of what the rest of the loop writes stays.
copy_loop-outside :
    (left d s i : ℕ) (b : Bytes) (p : ℕ)
    → d + (i + left) ≤ u32
    → ((p < d + i) ⊎ (d + (i + left) ≤ p))
    → copy_loop left d s i b p ≡ b p
unfolding copy_loop
copy_loop-outside zero d s i b p fits out = refl
copy_loop-outside (suc left) d s i b p fits out =
    let ih =
      copy_loop-outside left d s (i + 1) (update b ((d + i) % u32) (b ((s + i) % u32))) p
        (omega arith) (ground (arith, out)) in
    let e : (d + i) % u32 ≡ d + i = omega (arith, fits) in ground (arith, ih, e)

copy_loop-inside :
    (left d s i : ℕ) (b : Bytes) (j : ℕ)
    → d + (i + left) ≤ u32
    → s + (i + left) ≤ u32
    → Disjoint d s (i + left)
    → i ≤ j
    → j < i + left
    → copy_loop left d s i b (d + j) ≡ b (s + j)
unfolding copy_loop
copy_loop-inside zero d s i b j fits reads apart low high = absurd (omega arith)
copy_loop-inside (suc left) d s i b j fits reads apart low high =
    let b' = update b ((d + i) % u32) (b ((s + i) % u32)) in
    let here : (d + i) % u32 ≡ d + i = omega (arith, fits) in
    let there : (s + i) % u32 ≡ s + i = omega (arith, reads) in
    elim (Bool-cases (i == j)) [
      | inl e ↦
          let first =
            copy_loop-outside left d s (i + 1) b' (d + i) (omega arith) (inl (omega arith)) in
          ground (arith, e, first, here, there)
      | inr ne ↦
          let ih =
            copy_loop-inside left d s (i + 1) b' j (omega arith) (omega arith)
              (ground (arith, apart)) (ground (arith, ne)) (omega arith) in
          let kept : b' (s + j) ≡ b (s + j) = ground (arith, here, apart) in ih ∙ kept
    ]

clear_loop-outside :
    (left s i : ℕ) (b : Bytes) (p : ℕ)
    → s + (i + left) ≤ u32
    → ((p < s + i) ⊎ (s + (i + left) ≤ p))
    → clear_loop left s i b p ≡ b p
unfolding clear_loop
clear_loop-outside zero s i b p fits out = refl
clear_loop-outside (suc left) s i b p fits out =
    let ih =
      clear_loop-outside left s (i + 1) (update b ((s + i) % u32) 0) p (omega arith)
        (ground (arith, out)) in
    let e : (s + i) % u32 ≡ s + i = omega (arith, fits) in ground (arith, ih, e)

clear_loop-inside :
    (left s i : ℕ) (b : Bytes) (j : ℕ)
    → s + (i + left) ≤ u32
    → i ≤ j
    → j < i + left
    → clear_loop left s i b (s + j) ≡ 0
unfolding clear_loop
clear_loop-inside zero s i b j fits low high = absurd (omega arith)
clear_loop-inside (suc left) s i b j fits low high =
    let b' = update b ((s + i) % u32) 0 in
    let here : (s + i) % u32 ≡ s + i = omega (arith, fits) in
    elim (Bool-cases (i == j)) [
      | inl e ↦
          let first =
            clear_loop-outside left s (i + 1) b' (s + i) (omega arith) (inl (omega arith)) in
          ground (arith, e, first, here)
      | inr ne ↦
          clear_loop-inside left s (i + 1) b' j (omega arith) (ground (arith, ne)) (omega arith)
    ]

pub memcpy-bytes :
    (d s n : ℕ) (b : Bytes)
    → d + n ≤ u32
    → s + n ≤ u32
    → Disjoint d s n
    → ((j : ℕ) → j < n → memcpy d s n b (d + j) ≡ b (s + j))
      × ((p : ℕ) → ((p < d) ⊎ (d + n ≤ p)) → memcpy d s n b p ≡ b p)
unfolding memcpy
memcpy-bytes d s n b fits reads apart = (
  λ j small.
      copy_loop-inside n d s 0 b j (omega arith) (omega arith) (ground (arith, apart)) (omega arith)
        (omega arith),
  λ p out. copy_loop-outside n d s 0 b p (omega arith) (ground (arith, out)),
)

-- `memclr` of `n` bytes that do not reach past the end of memory: those bytes are 0, and no other
-- byte changes.
pub memclr-clears :
    (s n : ℕ) (b : Bytes)
    → s + n ≤ u32
    → ((j : ℕ) → j < n → memclr s n b (s + j) ≡ 0)
      × ((p : ℕ) → ((p < s) ⊎ (s + n ≤ p)) → memclr s n b p ≡ b p)
unfolding memclr
memclr-clears s n b fits = (
  λ j small. clear_loop-inside n s 0 b j (omega arith) (omega arith) (omega arith),
  λ p out. clear_loop-outside n s 0 b p (omega arith) (ground (arith, out)),
)

-- The bytes after `n` of them from `s` on have been copied to `d`.
abbrev pub with_copy : ℕ → ℕ → ℕ → Bytes → Bytes
with_copy d s n b p = if leb d p && ltb p (d + n) then b (s + (p - d)) else b p

-- `memcpy` of `n` bytes between places that do not overlap and do not reach past the end of memory:
-- the bytes from `d` on are those that stand from `s` on, and no other byte changes.
pub memcpy-with_copy :
    (d s n : ℕ) (b : Bytes) (p : ℕ)
    → d + n ≤ u32
    → s + n ≤ u32
    → Disjoint d s n
    → memcpy d s n b p ≡ with_copy d s n b p
memcpy-with_copy d s n b p fits reads apart =
    let both = memcpy-bytes d s n b fits reads apart in
    elim (Bool-cases (leb d p && ltb p (d + n))) [
      | inl e ↦
          let at : d + (p - d) ≡ p = ground (arith, e) in
          rw e (
            subst (λ q. memcpy d s n b q ≡ b (s + (p - d))) at (both.0 (p - d) (ground (arith, e))))
      | inr e ↦ rw e (both.1 p (ground (arith, e)))
    ]
