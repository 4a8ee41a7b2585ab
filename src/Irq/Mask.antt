-- ===== src/Irq/Mask.antt =====
-- The mask word of the interrupt controller as a set of IRQs.
use pinion.Base.{
  ℕ, suc, ◌-◌, ◌%◌, ◌^◌, ◌<◌, ◌≡◌, ap, ◌∙◌, ◌≢◌, arith, bit_and, bit_or, Ensures, Ensures-mono,
  ◌==◌, if◌then◌else◌, ltb, ◌/◌, ◌∷◌,
}
use native.Mathlib.Nat.{pow-le-pow_right, pow-suc}
use pinion.Base.Bits.{bit_and_mask}
use pinion.Base.Place.{place, place-bit_or, place-bit_and, place-power, place-inverted, place-le}
use pinion.Kernel.{Kernel, outb}
use pinion.Irq.{irq_bit, irq_mask, irq_unmask, write_mask}

-- 1 if the IRQ is masked, 0 if not.
abbrev pub masked : Kernel → ℕ → ℕ
masked k irq = place irq k.irq_mask_word

power_below : (irq : ℕ) → irq < 16 → 2 ^ irq < 2 ^ 16
power_below irq h =
    omega (arith, pow-le-pow_right {n = 2} (omega arith) {i = suc irq} {j = 16} h, pow-suc 2 irq)

irq_bit-power : (irq : ℕ) → irq < 16 → irq_bit irq ≡ 2 ^ irq
unfolding irq_bit
irq_bit-power irq h =
    let low : irq % 32 ≡ irq = omega (arith, h) in rw low (omega (arith, power_below irq h))

-- The controller that the IRQ belongs to gets its half of the mask in its data register.
abbrev pub Sent : ℕ → Kernel → Kernel → Type 0
Sent irq k l =
    l.ports
    ≡ (if ltb irq 8 then (0x21, l.irq_mask_word % 256) else (0xA1, l.irq_mask_word / 256 % 256))
      ∷ k.ports

-- `l` is `k` but for `bit` at the IRQ, and what the controller was sent.
abbrev pub MaskSet : ℕ → ℕ → Kernel → ℕ → Kernel → Type 0
MaskSet irq bit k r l =
    (r ≡ 0)
    × (masked l irq ≡ bit)
    × ((j : ℕ) → j < 16 → j ≢ irq → masked l j ≡ masked k j)
    × Sent irq k l
    × (l ≡ record k { irq_mask_word = l.irq_mask_word; ports = l.ports })

mask_steps :
    (k : Kernel) (irq : ℕ)
    → Ensures (irq_mask irq k) (λ r l.
      (r ≡ 0)
      × (l.irq_mask_word ≡ bit_or k.irq_mask_word (irq_bit irq))
      × Sent irq k l
      × (l ≡ record k { irq_mask_word = l.irq_mask_word; ports = l.ports }))
unfolding irq_mask write_mask outb
mask_steps k irq = ground (arith, bit_and_mask 8 (bit_or k.irq_mask_word (irq_bit irq)))

unmask_steps :
    (k : Kernel) (irq : ℕ)
    → Ensures (irq_unmask irq k) (λ r l.
      (r ≡ 0)
      × (l.irq_mask_word ≡ bit_and k.irq_mask_word (2 ^ 16 - 1 - irq_bit irq))
      × Sent irq k l
      × (l ≡ record k { irq_mask_word = l.irq_mask_word; ports = l.ports }))
unfolding irq_unmask write_mask outb
unmask_steps k irq =
    ground (arith, bit_and_mask 8 (bit_and k.irq_mask_word (2 ^ 16 - 1 - irq_bit irq)))

masked_after :
    (m irq j : ℕ)
    → irq < 16
    → place j (bit_or m (irq_bit irq)) ≡ (if j == irq then 1 else place j m)
masked_after m irq j h =
    rw (irq_bit-power irq h, place-bit_or j m (2 ^ irq), place-power j irq)
      (ground (arith, place-le j m))

unmasked_after :
    (m irq j : ℕ)
    → irq < 16
    → j < 16
    → place j (bit_and m (2 ^ 16 - 1 - irq_bit irq)) ≡ (if j == irq then 0 else place j m)
unmasked_after m irq j h g =
    rw
      (
        irq_bit-power irq h,
        place-bit_and j m (2 ^ 16 - 1 - 2 ^ irq),
        place-inverted j 16 (2 ^ irq) g (power_below irq h),
        place-power j irq,
      )
      (ground (arith, place-le j m))

-- `irq_mask` of one of the sixteen IRQs returns 0 and masks it; the other IRQs stay as they were,
-- the controller that it belongs to is sent its byte of the new mask, the first one (IRQs 0 to 7) at
-- port 0x21 and the second one at 0xA1, and nothing else changes.
pub irq_mask-MaskSet :
    (k : Kernel) (irq : ℕ) → irq < 16 → Ensures (irq_mask irq k) (MaskSet irq 1 k)
irq_mask-MaskSet k irq h =
    Ensures-mono _ (MaskSet irq 1 k) (irq_mask irq k) (mask_steps k irq) (λ r l s. (
      s.0,
      ap (place irq) s.1 ∙ masked_after k.irq_mask_word irq irq h ∙ ground arith,
      λ j g ne. ap (place j) s.1 ∙ masked_after k.irq_mask_word irq j h ∙ ground (arith, ne),
      s.2,
      s.3,
    ))

-- `irq_unmask` of one of the sixteen IRQs returns 0 and unmasks it; the other IRQs stay as they
-- were, the controller is sent its byte of the new mask, and nothing else changes.
pub irq_unmask-MaskSet :
    (k : Kernel) (irq : ℕ) → irq < 16 → Ensures (irq_unmask irq k) (MaskSet irq 0 k)
irq_unmask-MaskSet k irq h =
    Ensures-mono _ (MaskSet irq 0 k) (irq_unmask irq k) (unmask_steps k irq) (λ r l s. (
      s.0,
      ap (place irq) s.1 ∙ unmasked_after k.irq_mask_word irq irq h h ∙ ground arith,
      λ j g ne. ap (place j) s.1 ∙ unmasked_after k.irq_mask_word irq j h g ∙ ground (arith, ne),
      s.2,
      s.3,
    ))
