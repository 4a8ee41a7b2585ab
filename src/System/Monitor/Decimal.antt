-- ===== src/System/Monitor/Decimal.antt =====
-- What `printd` of src/system/monitor.c prints.
use pinion.Base.{
  ℕ, zero, suc, ◌+◌, ◌-◌, ◌*◌, ◌/◌, ◌%◌, ◌^◌, ◌≤◌, ◌<◌, ◌≡◌, refl, ◌≢◌, ◌∙◌, ap, arith, List, [],
  ◌∷◌, length, Bool-cases, inl, inr, ◌==◌, if◌then◌else◌, leb, false, Ensures, Ensures-bind,
  Ensures-mono,
}
use native.Mathlib.Nat.{pow-suc, pow-zero, div-lt_iff_lt-mul}
use pinion.Vm.{u32}
use pinion.Debug.{digit_char}
use pinion.System.Monitor.{Screen, printc, print_chars, decimal_loop, print_decimal, printd}

-- The number that a string of decimal digits stands for, after the digits of `acc`.
abbrev pub decimal_value : ℕ → List ℕ → ℕ
decimal_value acc [] = acc
decimal_value acc (c ∷ cs) = decimal_value (acc * 10 + (c - b'0')) cs

abbrev pub AllDigits : List ℕ → Type 0
AllDigits [] = Unit {0}
AllDigits (c ∷ cs) = (b'0' ≤ c) × (c ≤ b'9') × AllDigits cs

digit_char-range : (d : ℕ) → d < 10 → (b'0' ≤ digit_char d) × (digit_char d ≤ b'9')
unfolding digit_char
digit_char-range d small = ground arith

decimal_digit : (d : ℕ) → d < 10 → digit_char d - b'0' ≡ d
unfolding digit_char
decimal_digit d small = ground arith

-- The digits of `x` in front of those of `buffer`, at most ten in all.
record Digits (x : ℕ) (buffer : List ℕ) (s : Screen) (cs : List ℕ) (t : Screen) : Type 0 where
  same : t ≡ s
  some : x + length buffer ≢ 0 → 1 ≤ length cs
  few : length cs ≤ 10
  all : AllDigits cs
  value : decimal_value 0 cs ≡ decimal_value x buffer

decimal_loop-Digits :
    (fuel k x : ℕ) (buffer : List ℕ) (s : Screen)
    → k < fuel
    → x < 10 ^ k
    → length buffer + k ≤ 10
    → AllDigits buffer
    → Ensures (decimal_loop fuel x buffer s) (Digits x buffer s)
unfolding decimal_loop
decimal_loop-Digits zero k x buffer s enough small room all = absurd (omega arith)
decimal_loop-Digits (suc fuel) zero x buffer s enough small room all =
    let none : x ≡ 0 = omega (arith, small, pow-zero 10) in
    rw none (record {
      same = refl;
      some = λ n. omega (arith, n);
      few = omega arith;
      all = all;
      value = refl;
    })
decimal_loop-Digits (suc fuel) (suc k) x buffer s enough small room all =
    elim (Bool-cases (x == 0)) [
      | inl e ↦
          let none : x ≡ 0 = ground (arith, e) in
          rw none (record {
            same = refl;
            some = λ n. omega (arith, n);
            few = omega arith;
            all = all;
            value = refl;
          })
      | inr ne ↦
          let fits : leb 10 (length buffer) ≡ false = ground (arith, room) in
          let less : x / 10 < 10 ^ k =
            (div-lt_iff_lt-mul {k = 10} {x = x} {y = 10 ^ k} (omega arith)).1
              (omega (arith, small, pow-suc 10 k)) in
          let joined : x / 10 * 10 + (digit_char (x % 10) - b'0') ≡ x =
            omega (arith, decimal_digit (x % 10) (omega arith)) in
          let digit = digit_char-range (x % 10) (omega arith) in
          rw (ne, fits)
            (Ensures-mono (Digits (x / 10) (digit_char (x % 10) ∷ buffer) s) _
              (decimal_loop fuel (x / 10) (digit_char (x % 10) ∷ buffer) s)
              (decimal_loop-Digits fuel k (x / 10) (digit_char (x % 10) ∷ buffer) s (omega arith)
                less (omega (arith, room)) (digit.0, digit.1, all))
              (λ cs t h. record {
                same = h.same;
                some = λ n. h.some (omega arith);
                few = h.few;
                all = h.all;
                value = h.value ∙ ap (λ a. decimal_value a buffer) joined;
              }))
    ]

-- `t` is `s` after a decimal numeral of `x`, with one to ten digits.
pub record Shows (x : ℕ) (s t : Screen) : Type 0 where
  pub digits : List ℕ
  pub some : 1 ≤ length digits
  pub few : length digits ≤ 10
  pub all : AllDigits digits
  pub value : decimal_value 0 digits ≡ x
  pub printed : t ≡ print_chars digits s

print_decimal-Shows :
    (x : ℕ) (s : Screen) → x < 2 ^ 31 → Ensures (print_decimal x s) (λ _ t. Shows x s t)
unfolding print_decimal print_chars
print_decimal-Shows x s small = elim (Bool-cases (x == 0)) [
  | inl e ↦
      let none : x ≡ 0 = ground (arith, e) in
      rw none (record {
        digits = b'0' ∷ [];
        some = omega arith;
        few = omega arith;
        all = (omega arith, omega arith, tt);
        value = refl;
        printed = refl;
      })
  | inr ne ↦
      let fits : leb (2 ^ 31) x ≡ false = ground (arith, small) in
      rw (ne, fits)
        (Ensures-bind (Digits x [] s) _ (decimal_loop 11 x [] s) _
          (decimal_loop-Digits 11 10 x [] s (omega arith) (omega (arith, small)) (omega arith) tt)
          (λ cs t h. record {
            digits = cs;
            some = h.some (ground (arith, ne));
            few = h.few;
            all = h.all;
            value = h.value;
            printed = ap (print_chars cs) h.same;
          }))
]

-- The sign and the absolute value of a 32-bit pattern.
abbrev pub with_sign : ℕ → Screen → Screen
with_sign x s = if leb (2 ^ 31) x then printc b'-' s else s

abbrev pub absolute : ℕ → ℕ
absolute x = if leb (2 ^ 31) x then u32 - x else x

-- `printd` of any `int` but the smallest prints a '-' if it is negative, and then one to ten decimal
-- digits, '0' to '9', whose value is its absolute value: the places of its buffer are enough.
pub printd-Shows :
    (x : ℕ) (s : Screen)
    → x < 2 ^ 32
    → x ≢ 2 ^ 31
    → Ensures (printd x s) (λ _ t. Shows (absolute x) (with_sign x s) t)
unfolding printd
printd-Shows x s word n = elim (Bool-cases (leb (2 ^ 31) x)) [
  | inl e ↦ rw e (print_decimal-Shows (u32 - x) (printc b'-' s) (ground (arith, e, n)))
  | inr e ↦ rw e (print_decimal-Shows x s (ground (arith, e)))
]
