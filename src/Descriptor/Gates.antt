-- ===== src/Descriptor/Gates.antt =====
-- The entries of the IDT after `init_idt` of src/kernel/interrupt.c.
use pinion.Base.{
  ℕ, zero, suc, ◌+◌, ◌*◌, ◌^◌, ◌≤◌, ◌<◌, ◌≡◌, refl, ◌≢◌, ◌∙◌, sym, ◌⊎◌, inl, inr, arith, ◌==◌,
  if◌then◌else◌, ==_ne, subst, Bool-cases,
}
use pinion.Descriptor.{Gate, Tables, idt_set, idt_raw, idt_loop, init_idt, init_tss}

-- The address that a gate leads to.
abbrev pub target : Gate → ℕ
target g = g.base_l + g.base_h * 2 ^ 16

-- A gate to `base` in the kernel's code segment.
abbrev pub IsGate : ℕ → ℕ → Gate → Type 0
IsGate base flags g = (target g ≡ base) × (g.seg ≡ 0x08) × (g.reserved ≡ 0) × (g.flags ≡ flags)

-- A vector of a fault or of an IRQ.
abbrev pub IsVector : ℕ → Type 0
IsVector i = (i < 20) ⊎ ((32 ≤ i) × (i < 48))

idt_set-IsGate :
    (n base flags : ℕ) (t : Tables)
    → base ≢ 0
    → base < 2 ^ 32
    → IsGate base flags ((idt_set n base 0x08 flags t).idt n)
unfolding idt_set
idt_set-IsGate n base flags t nonzero small = ground arith

idt_set-other :
    (n base flags : ℕ) (t : Tables) (m : ℕ) → m ≢ n → (idt_set n base 0x08 flags t).idt m ≡ t.idt m
unfolding idt_set
idt_set-other n base flags t m ne = ground arith

module _ (stub : ℕ → ℕ) where
  -- One round of the loop.
  abbrev round_of : ℕ → Tables → Tables
  round_of i t = if idt_raw stub i == 0 then t else idt_set i (idt_raw stub i) 0x08 0x8E t

  round_of-other : (i : ℕ) (t : Tables) (n : ℕ) → n ≢ i → (round_of i t).idt n ≡ t.idt n
  unfolding idt_set
  round_of-other i t n ne = ground arith

  round_of-IsGate :
      (i : ℕ) (t : Tables)
      → IsVector i
      → stub i ≢ 0
      → stub i < 2 ^ 32
      → IsGate (stub i) 0x8E ((round_of i t).idt i)
  unfolding idt_raw
  round_of-IsGate i t v nonzero small =
      let raw : idt_raw stub i ≡ stub i = ground (arith, v) in
      rw (raw, ==_ne (stub i) 0 nonzero) (idt_set-IsGate i (stub i) 0x8E t nonzero small)

  round_of-hole :
      (i : ℕ) (t : Tables) → 20 ≤ i → ((i < 32) ⊎ (48 ≤ i)) → (round_of i t).idt i ≡ t.idt i
  unfolding idt_raw
  round_of-hole i t low v = let raw : idt_raw stub i ≡ 0 = ground (arith, v) in rw raw refl

  idt_loop-outside :
      (left i : ℕ) (t : Tables) (n : ℕ)
      → ((n < i) ⊎ (i + left ≤ n))
      → (idt_loop stub left i t).idt n ≡ t.idt n
  unfolding idt_loop
  idt_loop-outside zero i t n out = refl
  idt_loop-outside (suc left) i t n out =
      idt_loop-outside left (i + 1) (round_of i t) n (ground (arith, out))
      ∙ round_of-other i t n (ground (arith, out))

  idt_loop-inside :
      (left i : ℕ) (t : Tables) (n : ℕ)
      → i ≤ n
      → n < i + left
      → IsVector n
      → stub n ≢ 0
      → stub n < 2 ^ 32
      → IsGate (stub n) 0x8E ((idt_loop stub left i t).idt n)
  unfolding idt_loop
  idt_loop-inside zero i t n low high v nonzero small = absurd (omega arith)
  idt_loop-inside (suc left) i t n low high v nonzero small = elim (Bool-cases (i == n)) [
    | inl e ↦
        let here : i ≡ n = ground (arith, e) in
        subst (λ g. IsGate (stub n) 0x8E g)
          (sym (idt_loop-outside left (i + 1) (round_of i t) n (inl (omega (arith, here)))))
          (subst (λ j. IsGate (stub n) 0x8E ((round_of j t).idt n)) (sym here)
            (round_of-IsGate n t v nonzero small))
    | inr ne ↦
        idt_loop-inside left (i + 1) (round_of i t) n (ground (arith, ne)) (omega arith) v nonzero
          small
  ]

  idt_loop-hole :
      (left i : ℕ) (t : Tables) (n : ℕ)
      → 20 ≤ n
      → ((n < 32) ⊎ (48 ≤ n))
      → (idt_loop stub left i t).idt n ≡ t.idt n
  unfolding idt_loop
  idt_loop-hole zero i t n low v = refl
  idt_loop-hole (suc left) i t n low v =
      idt_loop-hole left (i + 1) (round_of i t) n low v ∙ elim (Bool-cases (i == n)) [
        | inl e ↦
            let here : i ≡ n = ground (arith, e) in
            subst (λ j. (round_of j t).idt n ≡ t.idt n) (sym here) (round_of-hole n t low v)
        | inr ne ↦ round_of-other i t n (ground (arith, ne))
      ]

-- `init_idt`, where the stubs have addresses of 32 bits other than NULL: each vector of a fault or of
-- an IRQ leads to its own stub through an interrupt gate of the kernel alone, vector 129 leads to its
-- stub through a gate open to user mode, and all other entries stay as they were.
pub init_idt-IsGate :
    (stub : ℕ → ℕ) (base : ℕ) (t : Tables) (n m : ℕ)
    → ((i : ℕ) → (stub i ≢ 0) × (stub i < 2 ^ 32))
    → IsVector n
    → 20 ≤ m
    → m ≢ 129
    → ((m < 32) ⊎ (48 ≤ m))
    → IsGate (stub n) 0x8E ((init_idt stub base t).idt n)
      × IsGate (stub 129) 0xEE ((init_idt stub base t).idt 129)
      × ((init_idt stub base t).idt m ≡ t.idt m)
unfolding init_idt init_tss
init_idt-IsGate stub base t n m h v low ne hole =
    let filled = idt_loop stub 64 0 t in
    (
      subst (λ g. IsGate (stub n) 0x8E g)
          (sym (idt_set-other 129 (stub 129) 0xEE filled n (ground (arith, v))))
          (idt_loop-inside stub 64 0 t n (omega arith) (ground (arith, v)) v (h n).0 (h n).1),
      idt_set-IsGate 129 (stub 129) 0xEE filled (h 129).0 (h 129).1,
      idt_set-other 129 (stub 129) 0xEE filled m ne ∙ idt_loop-hole stub 64 0 t m low hole,
    )
