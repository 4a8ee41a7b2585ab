-- ===== src/Base/Place.antt =====
-- The bits of a word, by place, and what masks do to them.
use Prim.Native.Nat.{ℕ, zero, suc, ◌-◌, ◌/◌, ◌%◌, ◌^◌, ◌≤◌, ◌<◌, min, max, bit_and, bit_or}
use mathlib.Core.Path.{◌≡◌, ap, ◌∙◌, sym}
use native.Mathlib.Nat.{pow-suc, pow-succ', div-div-eq-div-mul}
use native.Mathlib.Omega.{arith}
use pinion.Base.Tests.{◌==◌, if◌then◌else◌}
use pinion.Base.Bits.{bit_and_step, bit_or_step}

-- Bit `n` of `a`.
unfoldable pub place : ℕ → ℕ → ℕ
place n a = a / 2 ^ n % 2

place-zero : (a : ℕ) → place 0 a ≡ a % 2
unfolding place
place-zero a = omega arith

place-suc : (n a : ℕ) → place (suc n) a ≡ place n (a / 2)
unfolding place
place-suc n a =
    ap (λ (t : ℕ). a / t % 2) (pow-succ' 2 n)
    ∙ ap (λ (t : ℕ). t % 2) (sym (div-div-eq-div-mul a 2 (2 ^ n)))

pub place-bit_or : (n a b : ℕ) → place n (bit_or a b) ≡ max (place n a) (place n b)
place-bit_or zero a b =
    omega (arith, bit_or_step a b, place-zero (bit_or a b), place-zero a, place-zero b)
place-bit_or (suc n) a b =
    let half : bit_or a b / 2 ≡ bit_or (a / 2) (b / 2) = omega (arith, bit_or_step a b) in
    rw (place-suc n (bit_or a b), half, place-suc n a, place-suc n b)
      (place-bit_or n (a / 2) (b / 2))

pub place-bit_and : (n a b : ℕ) → place n (bit_and a b) ≡ min (place n a) (place n b)
place-bit_and zero a b =
    omega (arith, bit_and_step a b, place-zero (bit_and a b), place-zero a, place-zero b)
place-bit_and (suc n) a b =
    let half : bit_and a b / 2 ≡ bit_and (a / 2) (b / 2) = omega (arith, bit_and_step a b) in
    rw (place-suc n (bit_and a b), half, place-suc n a, place-suc n b)
      (place-bit_and n (a / 2) (b / 2))

place-of-zero : (n : ℕ) → place n 0 ≡ 0
place-of-zero zero = omega (arith, place-zero 0)
place-of-zero (suc n) = place-suc n 0 ∙ place-of-zero n

pub place-power : (n i : ℕ) → place n (2 ^ i) ≡ (if n == i then 1 else 0)
place-power zero zero = place-zero 1
place-power zero (suc i) = ground (arith, place-zero (2 ^ suc i), pow-suc 2 i)
place-power (suc n) zero = ground (arith, place-suc n 1, place-of-zero n)
place-power (suc n) (suc i) =
    let half : 2 ^ suc i / 2 ≡ 2 ^ i = omega (arith, pow-suc 2 i) in
    rw (place-suc n (2 ^ suc i), half, place-power n i) (ground arith)

-- All bits of a `w`-bit word inverted.
pub place-inverted : (n w a : ℕ) → n < w → a < 2 ^ w → place n (2 ^ w - 1 - a) ≡ 1 - place n a
place-inverted n zero a h small = absurd (omega arith)
place-inverted zero (suc w) a h small =
    omega (arith, place-zero (2 ^ suc w - 1 - a), place-zero a, pow-suc 2 w)
place-inverted (suc n) (suc w) a h small =
    let half : (2 ^ suc w - 1 - a) / 2 ≡ 2 ^ w - 1 - a / 2 = omega (arith, pow-suc 2 w) in
    rw (place-suc n (2 ^ suc w - 1 - a), half, place-suc n a)
      (place-inverted n w (a / 2) (omega arith) (omega (arith, pow-suc 2 w)))

pub place-le : (n a : ℕ) → place n a ≤ 1
unfolding place
place-le n a = omega arith
