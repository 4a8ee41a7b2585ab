-- ===== src/Base/Bits/Xor.antt =====
-- `^` digit by digit.
use Prim.Native.Nat.{ℕ, zero, suc, ◌+◌, ◌-◌, ◌*◌, ◌/◌, ◌%◌, ◌^◌, ◌≤◌, ◌<◌, differ}
use Prim.Native.Nat.{bit_and, bit_and-bitwise, bit_xor, bit_xor-bitwise}
use mathlib.Core.Path.{◌≡◌, refl, ◌∙◌}
use native.Mathlib.Nat.{pow-suc, one-le-pow}
use native.Mathlib.Omega.{arith}
use pinion.Base.Bits.{lowest_digit, bit_and_step, bit_and_mask}

pub bit_xor_step : (x y : ℕ) → bit_xor x y ≡ differ (x % 2) (y % 2) + 2 * bit_xor (x / 2) (y / 2)
bit_xor_step zero y = simp bit_xor-bitwise (omega arith)
bit_xor_step (suc x) y = simp bit_xor-bitwise (lowest_digit (λ z. z) differ x y)

differ_same : (a : ℕ) → differ a a ≡ 0
differ_same zero = refl
differ_same (suc a) = differ_same a

xor_same_below : (n a : ℕ) → a ≤ n → bit_xor a a ≡ 0
xor_same_below n zero h = simp bit_xor-bitwise refl
xor_same_below zero (suc a) h = absurd (omega arith)
xor_same_below (suc n) (suc a) h = omega (
  arith,
  bit_xor_step (suc a) (suc a),
  differ_same (suc a % 2),
  xor_same_below n (suc a / 2) (omega arith),
)

pub xor_same : (a : ℕ) → bit_xor a a ≡ 0
xor_same a = xor_same_below a a (omega arith)

-- A number and the one before it, which differ in the lowest one-digit and all below.
pub xor_odd : (t : ℕ) → t % 2 ≡ 1 → bit_xor (t - 1) t ≡ 1
xor_odd t odd =
    let low : (t - 1) % 2 ≡ 0 = omega (arith, odd) in
    let high : (t - 1) / 2 ≡ t / 2 = omega (arith, odd) in
    let digit : differ ((t - 1) % 2) (t % 2) ≡ 1 = rw (low, odd) refl in
    let rest : bit_xor ((t - 1) / 2) (t / 2) ≡ 0 = rw high (xor_same (t / 2)) in
    omega (arith, bit_xor_step (t - 1) t, digit, rest)

pub xor_even : (t : ℕ) → 1 ≤ t → t % 2 ≡ 0 → bit_xor (t - 1) t ≡ 1 + 2 * bit_xor (t / 2 - 1) (t / 2)
xor_even t pos even =
    let low : (t - 1) % 2 ≡ 1 = omega (arith, even, pos) in
    let high : (t - 1) / 2 ≡ t / 2 - 1 = omega (arith, even, pos) in
    let digit : differ ((t - 1) % 2) (t % 2) ≡ 1 = rw (low, even) refl in
    let rest : bit_xor ((t - 1) / 2) (t / 2) ≡ bit_xor (t / 2 - 1) (t / 2) = rw high refl in
    omega (arith, bit_xor_step (t - 1) t, digit, rest)

-- A number and its complement have no digit in common.
pub and_complement : (n a : ℕ) → a < 2 ^ n → bit_and a (2 ^ n - 1 - a) ≡ 0
and_complement zero a h = let none : a ≡ 0 = omega (arith, h) in rw none refl
and_complement (suc n) a h =
    let double : 2 ^ suc n ≡ 2 * 2 ^ n = omega (arith, pow-suc 2 n) in
    let less : a / 2 < 2 ^ n = omega (arith, h, double) in
    let half : (2 ^ suc n - 1 - a) / 2 ≡ 2 ^ n - 1 - a / 2 = omega (arith, h, double) in
    let low : (2 ^ suc n - 1 - a) % 2 ≡ 1 - a % 2 = omega (arith, h, double) in
    let ih : bit_and (a / 2) ((2 ^ suc n - 1 - a) / 2) ≡ 0 =
      rw half (and_complement n (a / 2) less) in
    omega (arith, bit_and_step a (2 ^ suc n - 1 - a), low, ih)

-- `a & -a` of an odd number is its lowest digit.
pub and_negative : (n a : ℕ) → a % 2 ≡ 1 → a < 2 ^ suc n → bit_and a (2 ^ suc n - a) ≡ 1
and_negative n a odd small =
    let double : 2 ^ suc n ≡ 2 * 2 ^ n = omega (arith, pow-suc 2 n) in
    let half : (2 ^ suc n - a) / 2 ≡ 2 ^ n - 1 - a / 2 = omega (arith, odd, small, double) in
    let low : (2 ^ suc n - a) % 2 ≡ 1 = omega (arith, odd, small, double) in
    let rest : bit_and (a / 2) ((2 ^ suc n - a) / 2) ≡ 0 =
      rw half (and_complement n (a / 2) (omega (arith, odd, small, double))) in
    omega (arith, bit_and_step a (2 ^ suc n - a), odd, low, rest)

pub xor_double : (x y a b : ℕ) → a ≡ 2 * x → b ≡ 2 * y → bit_xor a b ≡ 2 * bit_xor x y
xor_double x y a b of_x of_y =
    let zero_a : a % 2 ≡ 0 = omega (arith, of_x) in
    let zero_b : b % 2 ≡ 0 = omega (arith, of_y) in
    let half_a : a / 2 ≡ x = omega (arith, of_x) in
    let half_b : b / 2 ≡ y = omega (arith, of_y) in
    bit_xor_step a b ∙ rw (zero_a, zero_b, half_a, half_b) (omega arith)

pub and_double : (x y a b : ℕ) → a ≡ 2 * x → b ≡ 2 * y → bit_and a b ≡ 2 * bit_and x y
and_double x y a b of_x of_y =
    let zero_a : a % 2 ≡ 0 = omega (arith, of_x) in
    let half_a : a / 2 ≡ x = omega (arith, of_x) in
    let half_b : b / 2 ≡ y = omega (arith, of_y) in
    bit_and_step a b ∙ rw (zero_a, half_a, half_b) (omega arith)

-- The digits of a number below `2 ^ suc b`: the lowest, and the others.
pub mod_pow_step : (b t : ℕ) → t % 2 ^ suc b ≡ t % 2 + 2 * (t / 2 % 2 ^ b)
mod_pow_step b t =
    let double : 2 ^ suc b ≡ 2 * 2 ^ b = omega (arith, pow-suc 2 b) in
    let pos = one-le-pow b 2 in
    let low : (2 ^ suc b - 1) % 2 ≡ 1 = omega (arith, double, pos) in
    let high : (2 ^ suc b - 1) / 2 ≡ 2 ^ b - 1 = omega (arith, double, pos) in
    let rest : bit_and (t / 2) ((2 ^ suc b - 1) / 2) ≡ t / 2 % 2 ^ b =
      rw high (bit_and_mask b (t / 2)) in
    omega (arith, bit_and_mask (suc b) t, bit_and_step t (2 ^ suc b - 1), low, rest)

pub and_zero_left : (y : ℕ) → bit_and 0 y ≡ 0
and_zero_left y = simp bit_and-bitwise refl
