-- ===== src/System/Log/Format.antt =====
-- What the format loop of src/system/log.c prints.
use pinion.Base.{
  ℕ, suc, ◌+◌, ◌%◌, ◌^◌, ◌<◌, ◌≤◌, ◌≡◌, refl, sym, ap, ◌∙◌, ◌≢◌, arith, List, [], ◌∷◌, ◌++◌, length,
  ok, ◌>>=◌, if◌then◌else◌, leb, Bool-cases, inl, inr,
}
use pinion.Bytes.{Bytes}
use pinion.System.Monitor.{Screen, printc, print_chars}
use pinion.System.Monitor.Hex.{hex_string, hex_chars}
use pinion.System.Monitor.Decimal.{AllDigits, decimal_value, absolute, with_sign}
use pinion.System.Log.{print_conversion, log_loop}

-- A format: characters other than '%', and the conversions %%, %d, %x, %p and %c.
pub data Piece : Type 0 where
  plain : ℕ → Piece
  percent decimal hex pointer letter : Piece

-- The pieces stand at `p`, in front of a NUL.
abbrev pub IsFormat : Bytes → ℕ → List Piece → Type 0
IsFormat b p [] = b p ≡ 0
IsFormat b p (plain c ∷ ps) = (b p ≡ c) × (c ≢ 0) × (c ≢ b'%') × IsFormat b (p + 1) ps
IsFormat b p (percent ∷ ps) = (b p ≡ b'%') × (b (p + 1) ≡ b'%') × IsFormat b (p + 2) ps
IsFormat b p (decimal ∷ ps) = (b p ≡ b'%') × (b (p + 1) ≡ b'd') × IsFormat b (p + 2) ps
IsFormat b p (hex ∷ ps) = (b p ≡ b'%') × (b (p + 1) ≡ b'x') × IsFormat b (p + 2) ps
IsFormat b p (pointer ∷ ps) = (b p ≡ b'%') × (b (p + 1) ≡ b'p') × IsFormat b (p + 2) ps
IsFormat b p (letter ∷ ps) = (b p ≡ b'%') × (b (p + 1) ≡ b'c') × IsFormat b (p + 2) ps

-- There is an argument of 32 bits for each conversion, and the smallest `int` is not one for %d.
abbrev pub Fitting : List Piece → List ℕ → Type 0
Fitting [] args = Unit {0}
Fitting (plain c ∷ ps) args = Fitting ps args
Fitting (percent ∷ ps) args = Fitting ps args
Fitting (decimal ∷ ps) [] = ⊥
Fitting (decimal ∷ ps) (x ∷ args) = (x < 2 ^ 32) × (x ≢ 2 ^ 31) × Fitting ps args
Fitting (hex ∷ ps) [] = ⊥
Fitting (hex ∷ ps) (x ∷ args) = (x < 2 ^ 32) × Fitting ps args
Fitting (pointer ∷ ps) [] = ⊥
Fitting (pointer ∷ ps) (x ∷ args) = (x < 2 ^ 32) × Fitting ps args
Fitting (letter ∷ ps) [] = ⊥
Fitting (letter ∷ ps) (x ∷ args) = Fitting ps args

-- The sign of an `int`.
abbrev pub sign : ℕ → List ℕ
sign x = if leb (2 ^ 31) x then b'-' ∷ [] else []

-- The text of a format with its arguments.
pub data Formats : List Piece → List ℕ → List ℕ → Type 0 where
  done : {args : List ℕ} → Formats [] args []
  as_plain :
      {ps : List Piece} {args cs : List ℕ} {c : ℕ}
      → Formats ps args cs
      → Formats (plain c ∷ ps) args (c ∷ cs)
  as_percent :
      {ps : List Piece} {args cs : List ℕ}
      → Formats ps args cs
      → Formats (percent ∷ ps) args (b'%' ∷ cs)
  as_decimal :
      {ps : List Piece} {args : List ℕ} {x : ℕ} (ds cs : List ℕ)
      → 1 ≤ length ds
      → length ds ≤ 10
      → AllDigits ds
      → decimal_value 0 ds ≡ absolute x
      → Formats ps args cs
      → Formats (decimal ∷ ps) (x ∷ args) (sign x ++ (ds ++ cs))
  as_hex :
      {ps : List Piece} {args : List ℕ} {x : ℕ} (cs : List ℕ)
      → Formats ps args cs
      → Formats (hex ∷ ps) (x ∷ args) (hex_string x ++ cs)
  as_pointer :
      {ps : List Piece} {args : List ℕ} {x : ℕ} (cs : List ℕ)
      → Formats ps args cs
      → Formats (pointer ∷ ps) (x ∷ args) (hex_chars x 7 ++ cs)
  as_letter :
      {ps : List Piece} {args cs : List ℕ} {x : ℕ}
      → Formats ps args cs
      → Formats (letter ∷ ps) (x ∷ args) (x % 256 ∷ cs)

-- `t` is `s` after such a text.
pub record Logged (ps : List Piece) (args : List ℕ) (s t : Screen) : Type 0 where
  pub text : List ℕ
  pub formats : Formats ps args text
  pub printed : t ≡ print_chars text s

pub print_chars-append :
    (xs ys : List ℕ) (s : Screen) → print_chars (xs ++ ys) s ≡ print_chars ys (print_chars xs s)
unfolding print_chars
print_chars-append [] ys s = refl
print_chars-append (x ∷ xs) ys s = print_chars-append xs ys (printc x s)

pub print_chars-sign : (x : ℕ) (s : Screen) → print_chars (sign x) s ≡ with_sign x s
unfolding print_chars
print_chars-sign x s = elim (Bool-cases (leb (2 ^ 31) x)) [
  | inl e ↦ rw e refl
  | inr ne ↦ rw ne refl
]

-- The rest of the format, behind the text of its first piece.
pub behind :
    (ps qs : List Piece) (args more xs : List ℕ) (s s' t : Screen)
    → s' ≡ print_chars xs s
    → ((cs : List ℕ) → Formats ps args cs → Formats qs more (xs ++ cs))
    → Logged ps args s' t
    → Logged qs more s t
behind ps qs args more xs s s' t e step h = record {
  text = xs ++ h.text;
  formats = step h.text h.formats;
  printed = h.printed ∙ ap (print_chars h.text) e ∙ sym (print_chars-append xs h.text s);
}

pub log_loop-plain :
    (fuel : ℕ) (b : Bytes) (p : ℕ) (args : List ℕ) (s : Screen)
    → b p ≢ 0
    → b p ≢ b'%'
    → log_loop (suc fuel) b p args s ≡ log_loop fuel b (p + 1) args (printc (b p) s)
unfolding log_loop
log_loop-plain fuel b p args s n m = ground (arith, n, m)

pub log_loop-conversion :
    (fuel : ℕ) (b : Bytes) (p : ℕ) (args : List ℕ) (s : Screen)
    → b p ≡ b'%'
    → log_loop (suc fuel) b p args s
      ≡ (print_conversion b (b (p + 1)) args >>= log_loop fuel b (p + 2)) s
unfolding log_loop
log_loop-conversion fuel b p args s e = rw e refl

pub log_loop-end :
    (fuel : ℕ) (b : Bytes) (p : ℕ) (args : List ℕ) (s : Screen)
    → b p ≡ 0
    → log_loop (suc fuel) b p args s ≡ ok tt s
unfolding log_loop
log_loop-end fuel b p args s e = rw e refl
