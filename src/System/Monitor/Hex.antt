-- ===== src/System/Monitor/Hex.antt =====
-- What `printx` and `printp` of src/system/monitor.c print.
use pinion.Base.{
  ℕ, zero, suc, ◌+◌, ◌-◌, ◌*◌, ◌/◌, ◌%◌, ◌^◌, ◌<◌, ◌≡◌, refl, ◌≢◌, ◌∙◌, sym, ap, ◌⊎◌, inl, inr,
  arith, List, [], ◌∷◌, Bool-cases, ◌==◌, if◌then◌else◌, leb,
}
use native.Mathlib.Nat.{pow-suc, div-div-eq-div-mul}
use pinion.Debug.{digit_char}
use pinion.System.Monitor.{Screen, print_chars, nibble, leading, print_nibbles, printx, printp}

-- The value of a digit's character.
abbrev pub digit_value : ℕ → ℕ
digit_value c = if leb b'A' c then c - b'A' + 10 else c - b'0'

-- The number that a string of hexadecimal digits stands for, after the digits of `acc`.
abbrev pub hex_value : ℕ → List ℕ → ℕ
hex_value acc [] = acc
hex_value acc (c ∷ cs) = hex_value (acc * 16 + digit_value c) cs

-- The characters of the digits of `x` from place `i` down.
unfoldable pub hex_chars : ℕ → ℕ → List ℕ
hex_chars x zero = digit_char (nibble x zero) ∷ []
hex_chars x (suc i) = digit_char (nibble x (suc i)) ∷ hex_chars x i

print_nibbles-hex_chars :
    (x i : ℕ) (s : Screen) → print_nibbles x i s ≡ print_chars (hex_chars x i) s
unfolding print_nibbles hex_chars print_chars
print_nibbles-hex_chars x zero s = refl
print_nibbles-hex_chars x (suc i) s = print_nibbles-hex_chars x i _

digit_value-digit_char : (d : ℕ) → d < 16 → digit_value (digit_char d) ≡ d
unfolding digit_char
digit_value-digit_char d small = ground arith

shift_more : (x i : ℕ) → x / 2 ^ (4 * suc i) ≡ x / 2 ^ (4 * i) / 16
shift_more x i =
    let four : 4 * suc i ≡ suc (suc (suc (suc (4 * i)))) = omega arith in
    let power : 2 ^ (4 * suc i) ≡ 2 ^ (4 * i) * 16 = rw four (
      omega (
        arith,
        pow-suc 2 (suc (suc (suc (4 * i)))),
        pow-suc 2 (suc (suc (4 * i))),
        pow-suc 2 (suc (4 * i)),
        pow-suc 2 (4 * i),
      )) in
    rw power (sym (div-div-eq-div-mul x (2 ^ (4 * i)) 16))

-- The digits from place `i` down complete the number, from what is above them.
hex_value-hex_chars : (x i : ℕ) → hex_value (x / 2 ^ (4 * suc i)) (hex_chars x i) ≡ x
unfolding hex_chars nibble
hex_value-hex_chars x zero =
    omega (arith, digit_value-digit_char (x / 2 ^ (4 * 0) % 16) (omega arith))
hex_value-hex_chars x (suc i) =
    let digit = digit_value-digit_char (x / 2 ^ (4 * suc i) % 16) (omega arith) in
    let e : x / 2 ^ (4 * suc (suc i)) * 16 + digit_value (digit_char (x / 2 ^ (4 * suc i) % 16))
        ≡ x / 2 ^ (4 * suc i) =
      omega (arith, digit, shift_more x (suc i)) in
    ap (λ a. hex_value a (hex_chars x i)) e ∙ hex_value-hex_chars x i

above-leading : (x i : ℕ) → x / 2 ^ (4 * suc i) ≡ 0 → x / 2 ^ (4 * suc (leading x i)) ≡ 0
unfolding leading nibble
above-leading x zero h = h
above-leading x (suc i) h = elim (Bool-cases (nibble x (suc i) == 0)) [
  | inl e ↦ rw e (above-leading x i (ground (arith, shift_more x (suc i), h, e)))
  | inr ne ↦ rw ne h
]

nibble-leading : (x i : ℕ) → x ≢ 0 → x / 2 ^ (4 * suc i) ≡ 0 → nibble x (leading x i) ≢ 0
unfolding leading nibble
nibble-leading x zero n h = λ z. n (omega (arith, h, z))
nibble-leading x (suc i) n h = elim (Bool-cases (nibble x (suc i) == 0)) [
  | inl e ↦ rw e (nibble-leading x i n (ground (arith, shift_more x (suc i), h, e)))
  | inr ne ↦ rw ne (ground (arith, ne))
]

-- The number as a string in base 16 without leading zeros.
abbrev pub hex_string : ℕ → List ℕ
hex_string x = if x == 0 then b'0' ∷ [] else hex_chars x (leading x 7)

abbrev pub first : List ℕ → ℕ
first [] = 0
first (c ∷ cs) = c

first-hex_chars : (x i : ℕ) → first (hex_chars x i) ≡ digit_char (nibble x i)
unfolding hex_chars
first-hex_chars x zero = refl
first-hex_chars x (suc i) = refl

digit_char-zero : (d : ℕ) → d < 16 → d ≢ 0 → digit_char d ≢ b'0'
unfolding digit_char
digit_char-zero d small n = ground arith

hex_string-value : (x : ℕ) → x < 2 ^ 32 → hex_value 0 (hex_string x) ≡ x
hex_string-value x small = elim (Bool-cases (x == 0)) [
  | inl e ↦ rw e (ground (arith, e))
  | inr ne ↦
      let above = above-leading x 7 (omega (arith, small)) in
      rw ne (
        ap (λ a. hex_value a (hex_chars x (leading x 7))) (sym above)
        ∙ hex_value-hex_chars x (leading x 7))
]

hex_string-first : (x : ℕ) → x < 2 ^ 32 → (x ≡ 0) ⊎ (first (hex_string x) ≢ b'0')
unfolding nibble
hex_string-first x small = elim (Bool-cases (x == 0)) [
  | inl e ↦ inl (ground (arith, e))
  | inr ne ↦
      let n : x ≢ 0 = ground (arith, ne) in
      inr (
        rw (ne, first-hex_chars x (leading x 7))
          (digit_char-zero (nibble x (leading x 7)) (omega arith)
            (nibble-leading x 7 n (omega (arith, small)))))
]

pub printx-hex_string :
    (x : ℕ) (s : Screen)
    → x < 2 ^ 32
    → (printx x s ≡ print_chars (hex_string x) s)
      × (hex_value 0 (hex_string x) ≡ x)
      × ((x ≡ 0) ⊎ (first (hex_string x) ≢ b'0'))
      × (printp x s ≡ print_chars (hex_chars x 7) s)
      × (hex_value 0 (hex_chars x 7) ≡ x)
unfolding printx printp print_chars
printx-hex_string x s small =
    let top : x / 2 ^ (4 * suc 7) ≡ 0 = omega (arith, small) in
    (
      elim (Bool-cases (x == 0)) [
        | inl e ↦ rw e refl
        | inr ne ↦ rw ne (print_nibbles-hex_chars x (leading x 7) s)
      ],
      hex_string-value x small,
      hex_string-first x small,
      print_nibbles-hex_chars x 7 s,
      ap (λ a. hex_value a (hex_chars x 7)) (sym top) ∙ hex_value-hex_chars x 7,
    )
