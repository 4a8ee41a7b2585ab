-- ===== src/Interrupt/Timer.antt =====
-- The frequencies that the timer of src/kernel/interrupt.c accepts.
use pinion.Base.{
  ℕ, ◌/◌, ◌%◌, ◌≤◌, ◌<◌, ◌≡◌, refl, ◌≢◌, ◌⊎◌, inl, inr, arith, false, ok, Ensures, ◌==◌, leb, ◌∷◌,
}
use native.Mathlib.Nat.{le-div_iff_mul-le, div-lt_iff_lt-mul}
use pinion.Base.Bits.{bit_and_mask}
use pinion.Kernel.{Kernel, timer, outb}
use pinion.Irq.{irq_init}
use pinion.Interrupt.{timer_set_freq, int_set_handler}

-- The input frequency of the timer chip.
abbrev pub pit_input : ℕ
pit_input = 1193180

-- The chip counts `d` input cycles per tick: its mode and the two bytes of `d` have been written,
-- before the ten words to the interrupt controller.
abbrev pub CountsTo : ℕ → Kernel → Kernel → Type 0
CountsTo d k l =
    l.ports
    ≡ (0xA1, 0)
      ∷ (0x21, 0)
      ∷ (0xA1, 1)
      ∷ (0x21, 1)
      ∷ (0xA1, 2)
      ∷ (0x21, 4)
      ∷ (0xA1, 0x28)
      ∷ (0x21, 0x20)
      ∷ (0xA0, 0x11)
      ∷ (0x20, 0x11)
      ∷ (0x40, d / 256)
      ∷ (0x40, d % 256)
      ∷ (0x43, 0x36)
      ∷ k.ports

divider_small : (h : ℕ) → 19 ≤ h → pit_input / h < 65536
divider_small h low = (div-lt_iff_lt-mul (omega (arith, low))).1 (omega (arith, low))

divider_pos : (h : ℕ) → 19 ≤ h → h ≤ pit_input → 1 ≤ pit_input / h
divider_pos h low high = (le-div_iff_mul-le (omega (arith, low))).1 (omega (arith, high))

program :
    (k : Kernel) (h d : ℕ)
    → d ≡ pit_input / h
    → h ≢ 0
    → 1 ≤ d
    → d < 65536
    → Ensures
        (timer_set_freq h k)
        (λ r l. (r ≡ 0) × (l.pit_freq ≡ h) × (l.int_handlers 32 ≡ timer) × CountsTo d k l)
unfolding timer_set_freq irq_init outb int_set_handler
program k h d e n pos small =
    let some : (h == 0) ≡ false = ground (arith, n) in
    let nonzero : (d == 0) ≡ false = ground (arith, pos) in
    let fits : leb 65536 d ≡ false = ground (arith, small) in
    rw
      (
        some,
        ← e,
        nonzero,
        fits,
        bit_and_mask 8 d,
        (let whole : d / 256 % 256 ≡ d / 256 = omega (arith, small) in whole),
      )
      (refl, refl, refl, refl)

-- From 19 to 1193180 Hz, `timer_set_freq` returns 0, records the frequency, registers the timer's
-- handler, and has the chip count as many cycles of its input as fit into one period.
pub timer_set_freq-CountsTo :
    (k : Kernel) (hertz : ℕ)
    → 19 ≤ hertz
    → hertz ≤ pit_input
    → Ensures (timer_set_freq hertz k) (λ r l.
      (r ≡ 0)
      × (l.pit_freq ≡ hertz)
      × (l.int_handlers 32 ≡ timer)
      × CountsTo (pit_input / hertz) k l)
timer_set_freq-CountsTo k hertz low high =
    program k hertz (pit_input / hertz) refl (omega (arith, low)) (divider_pos hertz low high)
      (divider_small hertz low)

-- At a frequency below 19 or above 1193180 Hz, but 0, `timer_set_freq` returns 1 and changes nothing.
pub timer_set_freq-refused :
    (k : Kernel) (hertz : ℕ)
    → hertz ≢ 0
    → ((hertz < 19) ⊎ (pit_input < hertz))
    → timer_set_freq hertz k ≡ ok 1 k
unfolding timer_set_freq
timer_set_freq-refused k hertz n (inl slow) =
    let large : 65536 ≤ pit_input / hertz =
      (le-div_iff_mul-le {k = hertz} {x = 65536} {y = pit_input} (omega (arith, n))).1
        (omega (arith, slow)) in
    ground (arith, n, large)
timer_set_freq-refused k hertz n (inr fast) =
    let none : pit_input / hertz < 1 =
      (div-lt_iff_lt-mul {k = hertz} {x = pit_input} {y = 1} (omega (arith, n))).1
        (omega (arith, fast)) in
    ground (arith, n, none)
