-- ===== src/Base/Bits.antt =====
-- Words of two bit fields: `|` of fields that do not overlap, and `&` with a mask of low bits,
-- read as sums and remainders.
pub mod Xor
use Prim.Native.Nat.{ℕ, zero, suc, ◌+◌, ◌-◌, ◌*◌, ◌/◌, ◌%◌, ◌^◌, ◌≤◌, ◌<◌, min, max}
use Prim.Native.Nat.{bit_and, bit_or, digits, bitwise, bit_and-bitwise, bit_or-bitwise}
use mathlib.Core.Path.{◌≡◌, refl, ap}
use native.Mathlib.Nat.{pow-suc, one-le-pow}
use native.Mathlib.Omega.{arith}

-- The native operations recurse on binary digits, with fuel; any fuel from the number on will do.
module _ (rest : ℕ → ℕ) (op : ℕ → ℕ → ℕ) where
  digits-zero : (fuel y : ℕ) → digits rest op fuel 0 y ≡ rest y
  digits-zero zero y = refl
  digits-zero (suc fuel) y = refl

  digits_enough :
      (x y less more : ℕ)
      → x ≤ less
      → less ≤ more
      → digits rest op more x y ≡ digits rest op less x y
  digits_enough zero y less more fits grows = omega (arith, digits-zero less y, digits-zero more y)
  digits_enough (suc x) y zero more fits grows = absurd (omega arith)
  digits_enough (suc x) y (suc less) zero fits grows = absurd (omega arith)
  digits_enough (suc x) y (suc less) (suc more) fits grows =
      rw (digits_enough (suc x / 2) (y / 2) less more (omega arith) (omega arith))

  pub lowest_digit :
      (x y : ℕ)
      → bitwise rest op (suc x) y ≡ op (suc x % 2) (y % 2) + 2 * bitwise rest op (suc x / 2) (y / 2)
  lowest_digit x y =
      omega (arith, digits_enough (suc x / 2) (y / 2) (suc x / 2) x (omega arith) (omega arith))

pub bit_and_step : (x y : ℕ) → bit_and x y ≡ min (x % 2) (y % 2) + 2 * bit_and (x / 2) (y / 2)
bit_and_step zero y = simp bit_and-bitwise (omega arith)
bit_and_step (suc x) y = simp bit_and-bitwise (lowest_digit (λ _. 0) min x y)

pub bit_or_step : (x y : ℕ) → bit_or x y ≡ max (x % 2) (y % 2) + 2 * bit_or (x / 2) (y / 2)
bit_or_step zero y = simp bit_or-bitwise (omega arith)
bit_or_step (suc x) y = simp bit_or-bitwise (lowest_digit (λ z. z) max x y)

or_zero_below : (n a : ℕ) → a ≤ n → bit_or a 0 ≡ a
or_zero_below n zero h = refl
or_zero_below zero (suc a) h = absurd (omega arith)
or_zero_below (suc n) (suc a) h =
    omega (arith, bit_or_step (suc a) 0, or_zero_below n (suc a / 2) (omega arith))

pub and_zero_below : (n a : ℕ) → a ≤ n → bit_and a 0 ≡ 0
and_zero_below n zero h = refl
and_zero_below zero (suc a) h = absurd (omega arith)
and_zero_below (suc n) (suc a) h =
    omega (arith, bit_and_step (suc a) 0, and_zero_below n (suc a / 2) (omega arith))

double_pow : (q k : ℕ) → q * 2 ^ suc k ≡ 2 * (q * 2 ^ k)
double_pow q k = omega (arith, ap (λ (t : ℕ). q * t) (pow-suc 2 k))

-- `(q << k) | r` is a sum if `r` has at most `k` bits.
pub or_fields : (k q r : ℕ) → r < 2 ^ k → bit_or (q * 2 ^ k) r ≡ q * 2 ^ k + r
or_fields zero q r h = ground (arith, or_zero_below q q)
or_fields (suc k) q r h = ground (
  arith,
  bit_or_step (q * 2 ^ suc k) r,
  double_pow q k,
  or_fields k q (r / 2) (omega (arith, pow-suc 2 k)),
)

-- `&` with a mask that has no bit below `k`, or none from `k` on, sees one field only.
pub and_fields :
    (k q r p s : ℕ)
    → r < 2 ^ k
    → s < 2 ^ k
    → bit_and (q * 2 ^ k + r) (p * 2 ^ k + s) ≡ bit_and q p * 2 ^ k + bit_and r s
and_fields zero q r p s h g = ground (arith, and_zero_below r r)
and_fields (suc k) q r p s h g = ground (
  arith,
  bit_and_step (q * 2 ^ suc k + r) (p * 2 ^ suc k + s),
  bit_and_step r s,
  double_pow q k,
  double_pow p k,
  double_pow (bit_and q p) k,
  and_fields k q (r / 2) p (s / 2) (omega (arith, pow-suc 2 k)) (omega (arith, pow-suc 2 k)),
)

-- A mask keeps no more than the mask.
and-le_below : (n a b : ℕ) → a ≤ n → bit_and a b ≤ b
and-le_below n zero b h = omega (arith, bit_and-bitwise 0 b)
and-le_below zero (suc a) b h = absurd (omega arith)
and-le_below (suc n) (suc a) b h =
    omega (arith, bit_and_step (suc a) b, and-le_below n (suc a / 2) (b / 2) (omega arith))

pub bit_and-le : (a b : ℕ) → bit_and a b ≤ b
bit_and-le a b = and-le_below a a b (omega arith)

-- Masking twice is masking once.
and-idem_below : (n a b : ℕ) → a ≤ n → bit_and (bit_and a b) b ≡ bit_and a b
and-idem_below n zero b h = ground (arith, bit_and-bitwise 0 b)
and-idem_below zero (suc a) b h = absurd (omega arith)
and-idem_below (suc n) (suc a) b h = omega (
  arith,
  bit_and_step (suc a) b,
  bit_and_step (bit_and (suc a) b) b,
  and-idem_below n (suc a / 2) (b / 2) (omega arith),
  ap (λ (t : ℕ). bit_and t (b / 2))
      (let e : bit_and (suc a) b / 2 ≡ bit_and (suc a / 2) (b / 2) =
          omega (arith, bit_and_step (suc a) b) in
        e),
)

pub bit_and_idem : (a b : ℕ) → bit_and (bit_and a b) b ≡ bit_and a b
bit_and_idem a b = and-idem_below a a b (omega arith)

pub bit_and-zero : (a : ℕ) → bit_and a 0 ≡ 0
bit_and-zero a = and_zero_below a a (omega arith)

mask_fields : (k q r : ℕ) → r < 2 ^ k → bit_and (q * 2 ^ k + r) (2 ^ k - 1) ≡ r
mask_fields zero q r h = rw bit_and-zero (omega arith)
mask_fields (suc k) q r h = ground (
  arith,
  bit_and_step (q * 2 ^ suc k + r) (2 ^ suc k - 1),
  double_pow q k,
  pow-suc 2 k,
  one-le-pow k 2,
  mask_fields k q (r / 2) (omega (arith, pow-suc 2 k)),
)

-- `&` with the mask of the `k` lowest bits is the remainder by `2 ^ k`.
pub bit_and_mask : (k a : ℕ) → bit_and a (2 ^ k - 1) ≡ a % 2 ^ k
bit_and_mask k a = ground (arith, one-le-pow k 2, mask_fields k (a / 2 ^ k) (a % 2 ^ k))
