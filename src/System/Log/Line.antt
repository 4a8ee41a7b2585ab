-- ===== src/System/Log/Line.antt =====
-- What `lograw` and `__log` of src/system/log.c print.
use pinion.Base.{
  subst, append_assoc, ℕ, zero, suc, ◌+◌, ◌%◌, ◌^◌, ◌<◌, ◌≤◌, ◌≡◌, refl, sym, ap, ◌∙◌, ◌≢◌, arith,
  List, [], ◌∷◌, ◌++◌, length, ok, Ensures, Ensures-bind, Ensures-mono, pure,
}
use pinion.Bytes.{Bytes}
use pinion.System.Monitor.{Screen, printc, setcolor, printd, print_chars}
use pinion.System.Monitor.Hex.{hex_string, hex_chars, printx-hex_string}
use pinion.System.Monitor.Decimal.{
  AllDigits, decimal_value, absolute, with_sign, Shows, printd-Shows,
}
use pinion.System.Log.{print_argument, print_conversion, next_argument, log_loop, l_grey}
use pinion.System.Log.Format.{
  Piece, IsFormat, Fitting, sign, Formats, Logged, print_chars-append, print_chars-sign, behind,
  log_loop-plain, log_loop-conversion, log_loop-end, plain, percent, decimal, hex, pointer, letter,
  done, as_plain, as_percent, as_decimal, as_hex, as_pointer, as_letter,
}

-- The conversions, one by one.
step_hex :
    (b : Bytes) (x : ℕ) (args : List ℕ) (s : Screen)
    → x < 2 ^ 32
    → print_conversion b b'x' (x ∷ args) s ≡ ok args (print_chars (hex_string x) s)
unfolding print_conversion next_argument print_argument
step_hex b x args s small = ap (ok args) (printx-hex_string x s small).0

step_pointer :
    (b : Bytes) (x : ℕ) (args : List ℕ) (s : Screen)
    → x < 2 ^ 32
    → print_conversion b b'p' (x ∷ args) s ≡ ok args (print_chars (hex_chars x 7) s)
unfolding print_conversion next_argument print_argument
step_pointer b x args s small = ap (ok args) (printx-hex_string x s small).3

step_letter :
    (b : Bytes) (x : ℕ) (args : List ℕ) (s : Screen)
    → print_conversion b b'c' (x ∷ args) s ≡ ok args (print_chars (x % 256 ∷ []) s)
unfolding print_conversion next_argument print_argument print_chars
step_letter b x args s = refl

step_percent :
    (b : Bytes) (args : List ℕ) (s : Screen)
    → print_conversion b b'%' args s ≡ ok args (print_chars (b'%' ∷ []) s)
unfolding print_conversion print_chars
step_percent b args s = refl

-- A decimal numeral of one to ten digits, with its sign.
record Numeral (x : ℕ) (s t : Screen) : Type 0 where
  digits : List ℕ
  some : 1 ≤ length digits
  few : length digits ≤ 10
  all : AllDigits digits
  value : decimal_value 0 digits ≡ absolute x
  printed : t ≡ print_chars (sign x ++ digits) s

step_decimal :
    (b : Bytes) (x : ℕ) (args : List ℕ) (s : Screen)
    → x < 2 ^ 32
    → x ≢ 2 ^ 31
    → Ensures (print_conversion b b'd' (x ∷ args) s) (λ rest t. (rest ≡ args) × Numeral x s t)
unfolding print_conversion next_argument print_argument
step_decimal b x args s small n =
    Ensures-bind (λ _ t. Shows (absolute x) (with_sign x s) t)
      (λ rest t. (rest ≡ args) × Numeral x s t) (printd x s) (λ _. pure args)
      (printd-Shows x s small n)
      (λ _ t h. (
        refl,
        record {
          digits = h.digits;
          some = h.some;
          few = h.few;
          all = h.all;
          value = h.value;
          printed =
              h.printed
              ∙ ap (print_chars h.digits) (sym (print_chars-sign x s))
              ∙ sym (print_chars-append (sign x) h.digits s);
        },
      ))

print_one : (c : ℕ) (s : Screen) → printc c s ≡ print_chars (c ∷ []) s
unfolding print_chars
print_one c s = refl

-- A conversion that prints `xs`, and the rest of the format.
one_conversion :
    (fuel : ℕ) (b : Bytes) (p c : ℕ) (ps qs : List Piece) (args more xs : List ℕ) (s : Screen)
    → b p ≡ b'%'
    → b (p + 1) ≡ c
    → print_conversion b c more s ≡ ok args (print_chars xs s)
    → ((cs : List ℕ) → Formats ps args cs → Formats qs more (xs ++ cs))
    → ((t : Screen) → Ensures (log_loop fuel b (p + 2) args t) (λ _. Logged ps args t))
    → Ensures (log_loop (suc fuel) b p more s) (λ _. Logged qs more s)
one_conversion fuel b p c ps qs args more xs s e ch h step rest =
    rw (log_loop-conversion fuel b p more s e, ch, h)
      (Ensures-mono (λ _. Logged ps args (print_chars xs s)) _
        (log_loop fuel b (p + 2) args (print_chars xs s)) (rest (print_chars xs s))
        (λ _ t j. behind ps qs args more xs s (print_chars xs s) t refl step j))

decimal_conversion :
    (fuel : ℕ) (b : Bytes) (p x : ℕ) (ps : List Piece) (args : List ℕ) (s : Screen)
    → b p ≡ b'%'
    → b (p + 1) ≡ b'd'
    → x < 2 ^ 32
    → x ≢ 2 ^ 31
    → ((t : Screen) → Ensures (log_loop fuel b (p + 2) args t) (λ _. Logged ps args t))
    → Ensures (log_loop (suc fuel) b p (x ∷ args) s) (λ _. Logged (decimal ∷ ps) (x ∷ args) s)
decimal_conversion fuel b p x ps args s e ch small n rest =
    rw (log_loop-conversion fuel b p (x ∷ args) s e, ch)
      (Ensures-bind (λ more t. (more ≡ args) × Numeral x s t) _
        (print_conversion b b'd' (x ∷ args) s) (log_loop fuel b (p + 2))
        (step_decimal b x args s small n)
        (λ more t h.
          subst
            (λ as'.
              Ensures (log_loop fuel b (p + 2) as' t) (λ _. Logged (decimal ∷ ps) (x ∷ args) s))
            (sym h.0)
            (Ensures-mono (λ _. Logged ps args t) _ (log_loop fuel b (p + 2) args t) (rest t)
              (λ _ u j.
                behind ps (decimal ∷ ps) args (x ∷ args) (sign x ++ h.1.digits) s t u h.1.printed
                  (λ cs f.
                    subst (Formats (decimal ∷ ps) (x ∷ args))
                      (sym (append_assoc (sign x) h.1.digits cs))
                      (as_decimal h.1.digits cs h.1.some h.1.few h.1.all h.1.value f))
                  j))))

-- The format loop prints the format's text.
pub log_loop-Logged :
    (ps : List Piece) (fuel : ℕ) (b : Bytes) (p : ℕ) (args : List ℕ) (s : Screen)
    → length ps < fuel
    → IsFormat b p ps
    → Fitting ps args
    → Ensures (log_loop fuel b p args s) (λ _. Logged ps args s)
unfolding print_chars
log_loop-Logged ps zero b p args s enough h f = absurd (omega (arith, enough))
log_loop-Logged [] (suc fuel) b p args s enough h f =
    rw (log_loop-end fuel b p args s h) (record { text = []; formats = done; printed = refl })
log_loop-Logged (plain c ∷ ps) (suc fuel) b p args s enough h f =
    let n : b p ≢ 0 = rw (h.0) (h.1) in
    let m : b p ≢ b'%' = rw (h.0) (h.2) in
    let e : printc (b p) s ≡ print_chars (c ∷ []) s = ap (λ x. printc x s) h.0 ∙ print_one c s in
    rw (log_loop-plain fuel b p args s n m) (
      Ensures-mono (λ _. Logged ps args (printc (b p) s)) _
        (log_loop fuel b (p + 1) args (printc (b p) s))
        (log_loop-Logged ps fuel b (p + 1) args (printc (b p) s) (omega (arith, enough)) h.3 f)
        (λ _ t j.
          behind ps (plain c ∷ ps) args args (c ∷ []) s (printc (b p) s) t e (λ cs g. as_plain g)
            j))
log_loop-Logged (percent ∷ ps) (suc fuel) b p args s enough h f =
    one_conversion fuel b p b'%' ps (percent ∷ ps) args args (b'%' ∷ []) s h.0 h.1
      (step_percent b args s) (λ cs g. as_percent g)
      (λ t. log_loop-Logged ps fuel b (p + 2) args t (omega (arith, enough)) h.2 f)
log_loop-Logged (decimal ∷ ps) (suc fuel) b p [] s enough h f = absurd f
log_loop-Logged (decimal ∷ ps) (suc fuel) b p (x ∷ args) s enough h f =
    decimal_conversion fuel b p x ps args s h.0 h.1 f.0 f.1
      (λ t. log_loop-Logged ps fuel b (p + 2) args t (omega (arith, enough)) h.2 f.2)
log_loop-Logged (hex ∷ ps) (suc fuel) b p [] s enough h f = absurd f
log_loop-Logged (hex ∷ ps) (suc fuel) b p (x ∷ args) s enough h f =
    one_conversion fuel b p b'x' ps (hex ∷ ps) args (x ∷ args) (hex_string x) s h.0 h.1
      (step_hex b x args s f.0) (λ cs g. as_hex cs g)
      (λ t. log_loop-Logged ps fuel b (p + 2) args t (omega (arith, enough)) h.2 f.1)
log_loop-Logged (pointer ∷ ps) (suc fuel) b p [] s enough h f = absurd f
log_loop-Logged (pointer ∷ ps) (suc fuel) b p (x ∷ args) s enough h f =
    one_conversion fuel b p b'p' ps (pointer ∷ ps) args (x ∷ args) (hex_chars x 7) s h.0 h.1
      (step_pointer b x args s f.0) (λ cs g. as_pointer cs g)
      (λ t. log_loop-Logged ps fuel b (p + 2) args t (omega (arith, enough)) h.2 f.1)
log_loop-Logged (letter ∷ ps) (suc fuel) b p [] s enough h f = absurd f
log_loop-Logged (letter ∷ ps) (suc fuel) b p (x ∷ args) s enough h f =
    one_conversion fuel b p b'c' ps (letter ∷ ps) args (x ∷ args) (x % 256 ∷ []) s h.0 h.1
      (step_letter b x args s) (λ cs g. as_letter g)
      (λ t. log_loop-Logged ps fuel b (p + 2) args t (omega (arith, enough)) h.2 f)

-- `t` is `s` after a line with the format's text.
pub record Line (ps : List Piece) (args : List ℕ) (s t : Screen) : Type 0 where
  pub text : List ℕ
  pub formats : Formats ps args text
  pub printed : t ≡ print_chars (text ++ 10 ∷ []) s

-- Such a line, and grey from then on.
pub record Coloured (ps : List Piece) (args : List ℕ) (s t : Screen) : Type 0 where
  pub before : Screen
  pub line : Line ps args s before
  pub grey : t ≡ setcolor l_grey before
