-- ===== src/Debug/Itoa.antt =====
-- What `__itoa` of src/kernel/debug.c leaves in its buffer.
use pinion.Base.{
  ℕ, zero, suc, ◌+◌, ◌-◌, ◌*◌, ◌/◌, ◌%◌, ◌^◌, ◌≤◌, ◌<◌, ◌≡◌, refl, ◌≢◌, ◌∙◌, sym, ap, ◌⊎◌, inl, inr,
  arith, Bool-cases, ◌==◌, if◌then◌else◌, leb, ltb, ◌&&◌, false, update, update_self, update_ne,
  Ensures, Ensures-bind, Ensures-mono,
}
use native.Mathlib.Nat.{pow-suc, pow-zero, div-add-mod', mod-lt, mul-le-mul_left, div-lt_iff_lt-mul}
use pinion.Bytes.{Bytes}
use pinion.Debug.{digit_char, digit_loop, reverse_loop, itoa}

-- The value of a digit's character.
abbrev pub value_of : ℕ → ℕ
value_of c = if leb b'A' c then c - b'A' + 10 else c - b'0'

-- The number that the first `k` characters stand for, the highest digit first.
abbrev pub number : ℕ → Bytes → ℕ → ℕ
number base l zero = 0
number base l (suc k) = number base l k * base + value_of (l k)

-- The number that `k` characters from place `i` on stand for, the lowest digit first.
abbrev low_number : ℕ → Bytes → ℕ → ℕ → ℕ
low_number base l i zero = 0
low_number base l i (suc k) = low_number base l (i + 1) k * base + value_of (l i)

-- '0' to '9' or from 'A' on, for a digit of that base.
abbrev pub IsDigit : ℕ → ℕ → Type 0
IsDigit base c = (value_of c < base) × (((b'0' ≤ c) × (c ≤ b'9')) ⊎ ((b'A' ≤ c) × (c ≤ b'F')))

digit_char-IsDigit : (base d : ℕ) → base ≤ 16 → d < base → IsDigit base (digit_char d)
unfolding digit_char
digit_char-IsDigit base d high small = ground (arith, high, small)

value_of-digit_char : (d : ℕ) → d < 16 → value_of (digit_char d) ≡ d
unfolding digit_char
value_of-digit_char d small = ground arith

-- The digits of `n` in places `i` up to `size`, at most `k` of them.
record Digits (base n i k : ℕ) (b : Bytes) (size : ℕ) (l : Bytes) : Type 0 where
  from : i ≤ size
  few : size ≤ i + k
  digits : (p : ℕ) → i ≤ p → p < size → IsDigit base (l p)
  value : low_number base l i (size - i) ≡ n
  kept : (p : ℕ) → ((p < i) ⊎ (size ≤ p)) → l p ≡ b p

smaller : (c base n k : ℕ) → 2 ≤ c → c ≤ base → n < c ^ suc k → n / base < c ^ k
smaller c base n k low le h =
    (div-lt_iff_lt-mul {k = base} {x = n} {y = c ^ k} (omega arith)).1
      (omega (arith, h, pow-suc c k, mul-le-mul_left {m = c} {n = base} (c ^ k) le))

-- The digit at place `i` and those above it.
Digits-suc :
    (base n i k : ℕ) (b : Bytes) (size : ℕ) (l : Bytes)
    → 2 ≤ base
    → base ≤ 16
    → Digits base (n / base) (i + 1) k (update b i (digit_char (n % base))) size l
    → Digits base n i (suc k) b size l
Digits-suc base n i k b size l low high h =
    let lowest : n % base < base = mod-lt n {m = base} (omega arith) in
    let digit : l i ≡ digit_char (n % base) =
      h.kept i (inl (omega arith)) ∙ update_self b i (digit_char (n % base)) in
    let read : value_of (l i) ≡ n % base =
      ap value_of digit ∙ value_of-digit_char (n % base) (omega (arith, lowest)) in
    let count : size - i ≡ suc (size - (i + 1)) = omega (arith, h.from) in
    record {
      from = omega (arith, h.from);
      few = omega (arith, h.few);
      digits = λ p from below. elim (Bool-cases (p == i)) [
        | inl e ↦
            let here : l p ≡ digit_char (n % base) =
              ap l (let q : p ≡ i = ground (arith, e) in q) ∙ digit in
            rw here (digit_char-IsDigit base (n % base) high lowest)
        | inr ne ↦ h.digits p (ground (arith, ne, from)) below
      ];
      value =
          ap (λ m. low_number base l i m) count
          ∙ omega (arith, read, ap (λ (t : ℕ). t * base) h.value, div-add-mod' n base);
      kept = λ p out.
          h.kept p (ground (arith, out))
          ∙ update_ne b i p (digit_char (n % base)) (ground (arith, out, h.from));
    }

Digits-none : (base i k : ℕ) (b : Bytes) → Digits base 0 i k b i b
Digits-none base i k b =
    let none : i - i ≡ 0 = omega arith in
    record {
      from = omega arith;
      few = omega arith;
      digits = λ p from below. absurd (omega (arith, from, below));
      value = ap (λ m. low_number base b i m) none;
      kept = λ p out. refl;
    }

digit_loop-Digits :
    (c base : ℕ)
    → 2 ≤ c
    → c ≤ base
    → base ≤ 16
    → (fuel k i n : ℕ) (b : Bytes) → k < fuel
    → n < c ^ k
    → Ensures (digit_loop fuel base i n b) (Digits base n i k b)
unfolding digit_loop
digit_loop-Digits c base low le high zero k i n b enough small = absurd (omega arith)
digit_loop-Digits c base low le high (suc fuel) zero i n b enough small =
    let none : n ≡ 0 = omega (arith, small, pow-zero c) in rw none (Digits-none base i 0 b)
digit_loop-Digits c base low le high (suc fuel) (suc k) i n b enough small =
    elim (Bool-cases (n == 0)) [
      | inl e ↦ let none : n ≡ 0 = ground (arith, e) in rw none (Digits-none base i (suc k) b)
      | inr ne ↦ rw ne (
          Ensures-mono _ _
            (digit_loop fuel base (i + 1) (n / base) (update b i (digit_char (n % base))))
            (digit_loop-Digits c base low le high fuel k (i + 1) (n / base) _ (omega arith)
              (smaller c base n k low le small))
            (λ size l h. Digits-suc base n i k b size l (omega (arith, low, le)) high h))
    ]

-- What the reversal does with a string of `size` characters.
reverse_loop-mirror :
    (left size i : ℕ) (b : Bytes) (p : ℕ)
    → i + left ≤ size / 2
    → reverse_loop left size i b p ≡ (
        if leb i p && ltb p (i + left)
        then b (size - 1 - p)
        else if ltb p (size - i) && leb (size - i - left) p
        then b (size - 1 - p)
        else b p)
unfolding reverse_loop
reverse_loop-mirror zero size i b p h = ground arith
reverse_loop-mirror (suc left) size i b p h = ground (
  arith,
  reverse_loop-mirror left size (i + 1)
      (update (update b (size - i - 1) (b i)) i (b (size - i - 1))) p (omega (arith, h)),
)

reversed : ℕ → Bytes → Bytes
reversed size b = reverse_loop (size / 2) size 0 b

reversed-inside : (size : ℕ) (b : Bytes) (p : ℕ) → p < size → reversed size b p ≡ b (size - 1 - p)
unfolding reversed
reversed-inside size b p h = elim (Bool-cases (size - 1 - p == p)) [
  | inl mid ↦
      let e : size - 1 - p ≡ p = ground (arith, mid) in
      rw e (ground (arith, e, reverse_loop-mirror (size / 2) size 0 b p (omega arith)))
  | inr ne ↦ ground (arith, ne, reverse_loop-mirror (size / 2) size 0 b p (omega arith))
]

reversed-outside : (size : ℕ) (b : Bytes) (p : ℕ) → size ≤ p → reversed size b p ≡ b p
unfolding reversed
reversed-outside size b p h =
    ground (arith, reverse_loop-mirror (size / 2) size 0 b p (omega arith))

number-mirror :
    (base size : ℕ) (l m : Bytes) (k : ℕ)
    → ((p : ℕ) → p < size → m p ≡ l (size - 1 - p))
    → k ≤ size
    → number base m k ≡ low_number base l (size - k) k
number-mirror base size l m zero mirror h = refl
number-mirror base size l m (suc k) mirror h =
    let ih = number-mirror base size l m k mirror (omega arith) in
    let digit : m k ≡ l (size - suc k) =
      mirror k (omega arith) ∙ ap l (let e : size - 1 - k ≡ size - suc k = omega arith in e) in
    let next : size - suc k + 1 ≡ size - k = omega (arith, h) in rw (next, digit, ih) refl

-- The first `size` characters of the buffer are a numeral of `n`, one to `k` digits and a NUL behind
-- them, and nothing else of the buffer `b` has changed.
pub record Printed (base n k : ℕ) (b : Bytes) (l : Bytes) : Type 0 where
  pub size : ℕ
  pub some : 1 ≤ size
  pub few : size ≤ k
  pub digits : (i : ℕ) → i < size → IsDigit base (l i)
  pub value : number base l size ≡ n
  pub ended : l size ≡ 0
  pub kept : (i : ℕ) → l (size + 1 + i) ≡ b (size + 1 + i)

Digits-Printed :
    (base n k : ℕ) (b : Bytes) (size : ℕ) (l : Bytes)
    → n ≢ 0
    → Digits base n 0 k b size l
    → Printed base n k b (reversed size (update l size 0))
Digits-Printed base n k b size l n0 h =
    let m = update l size 0 in
    let all : size - size ≡ 0 = omega arith in
    let whole : size - 0 ≡ size = omega arith in
    record {
      size = size;
      some = elim (Bool-cases (size == 0)) [
        | inl e ↦
            let none : size - 0 ≡ 0 = ground (arith, e) in
            absurd (n0 (sym h.value ∙ ap (λ t. low_number base l 0 t) none))
        | inr ne ↦ ground (arith, ne)
      ];
      few = omega (arith, h.few);
      digits = λ p inside.
          let there : reversed size m p ≡ l (size - 1 - p) =
            reversed-inside size m p inside ∙ update_ne l size (size - 1 - p) 0 (omega arith) in
          rw there (h.digits (size - 1 - p) (omega arith) (omega (arith, inside)));
      value =
          number-mirror base size l (reversed size m) size
            (λ p inside.
              reversed-inside size m p inside ∙ update_ne l size (size - 1 - p) 0 (omega arith))
            (omega arith)
          ∙ ap (λ i. low_number base l i size) all
          ∙ ap (λ t. low_number base l 0 t) (sym whole)
          ∙ h.value;
      ended = reversed-outside size m size (omega arith) ∙ update_self l size 0;
      kept = λ i.
          reversed-outside size m (size + 1 + i) (omega arith)
          ∙ update_ne l size (size + 1 + i) 0 (omega arith)
          ∙ h.kept (size + 1 + i) (inr (omega arith));
    }

-- `__itoa` of a 32-bit number in a base from 10 to 16, as in all calls of it, writes a numeral of that
-- number with one to 10 digits of that base, '0' to '9' and 'A' to 'F', the highest first, and a NUL behind it, and nothing else: the 13
-- places of the callers' buffers are enough.
pub itoa-Printed :
    (n base : ℕ) (b : Bytes)
    → n < 2 ^ 32
    → 10 ≤ base
    → base ≤ 16
    → Ensures (itoa n base b) (λ _ l. Printed base n 10 b l)
unfolding itoa reversed
itoa-Printed n base b small low high = elim (Bool-cases (n == 0)) [
  | inl e ↦
      let none : n ≡ 0 = ground (arith, e) in
      rw none (record {
        size = 1;
        some = omega arith;
        few = omega arith;
        digits = λ p first.
            let here : p ≡ 0 = omega (arith, first) in
            rw here (omega (arith, low), inl (omega arith, omega arith));
        value = omega arith;
        ended = refl;
        kept = λ i. ground arith;
      })
  | inr ne ↦
      let n0 : n ≢ 0 = ground (arith, ne) in
      let fits : ltb 16 base ≡ false = ground (arith, high) in
      let some : (base == 0) ≡ false = ground (arith, low) in
      rw (ne, fits, some)
        (Ensures-bind (Digits base n 0 10 b) _ (digit_loop 33 base 0 n b) _
          (digit_loop-Digits 10 base (omega arith) low high 33 10 0 n b (omega arith)
            (omega (arith, small)))
          (λ size l h. Digits-Printed base n 10 b size l n0 h))
]
