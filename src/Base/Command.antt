-- ===== src/Base/Command.antt =====
-- Commands over a state: what a C function returns with the state that it leaves, or a crash.
use mathlib.Core.Bool.{Bool, true, false}
use mathlib.Core.Path.{◌≡◌, refl, subst}

-- `null_pointer`: an access through NULL. `out_of_bounds`: an array access past its end.
-- `panic`: `debug_panic`. `idle`: `cpu_idle`, which does not return. `divide_error`: a division by
-- zero. `hang`: a loop's fuel ran out.
pub data Crash : Type 0 where
  null_pointer out_of_bounds panic idle divide_error hang : Crash

pub data Run (S A : Type 0) : Type 0 where
  ok : A → S → Run S A
  crash : Crash → Run S A

abbrev pub Cmd : Type 0 → Type 0 → Type 0
Cmd S A = S → Run S A

module _ {S A : Type 0} where
  abbrev pub pure : A → Cmd S A
  pure a s = ok a s

  abbrev pub fail : Crash → Cmd S A
  fail c s = crash c

module _ {S A B : Type 0} where
  abbrev pub and_then : Run S A → (A → Cmd S B) → Run S B
  and_then (ok a s) k = k a s
  and_then (crash c) k = crash c

  infixl 5 ◌>>=◌ ◌>>◌
  abbrev pub ◌>>=◌ : Cmd S A → (A → Cmd S B) → Cmd S B
  m >>= k = λ s. and_then (m s) k

  abbrev pub ◌>>◌ : Cmd S A → Cmd S B → Cmd S B
  m >> n = m >>= λ _. n

pub and_then_assoc :
    {S A B C : Type 0} (r : Run S A) (f : A → Cmd S B) (g : B → Cmd S C)
    → and_then (and_then r f) g ≡ and_then r (λ a s. and_then (f a s) g)
and_then_assoc (ok a s) f g = refl
and_then_assoc (crash c) f g = refl

module _ {S : Type 0} where
  abbrev pub get : Cmd S S
  get s = ok s s

  abbrev pub put : S → Cmd S (Unit {0})
  put s _ = ok tt s

  abbrev pub modify : (S → S) → Cmd S (Unit {0})
  modify f s = ok tt (f s)

  -- `if (b) m;`
  abbrev pub when : Bool → Cmd S (Unit {0}) → Cmd S (Unit {0})
  when true m = m
  when false m = pure tt

-- A command on a part of the state.
module _ {S T A : Type 0} where
  abbrev pub put_back : (T → S) → Run T A → Run S A
  put_back back (ok a t) = ok a (back t)
  put_back back (crash c) = crash c

  abbrev pub focus : (S → T) → (S → T → S) → Cmd T A → Cmd S A
  focus part replace m s = put_back (replace s) (m (part s))

-- The run ends without a crash, and its result and final state satisfy `P`.
abbrev pub Ensures : {S A : Type 0} → Run S A → (A → S → Type 0) → Type 0
Ensures (ok a s) P = P a s
Ensures (crash c) P = ⊥

pub Ensures-ok :
    {S A : Type 0} (P : A → S → Type 0) (r : Run S A) (a : A) (s : S)
    → r ≡ ok a s
    → Ensures r P
    → P a s
Ensures-ok P r a s e h = subst (λ x. Ensures x P) e h

pub Ensures-bind :
    {S A B : Type 0} (P : A → S → Type 0) (Q : B → S → Type 0) (r : Run S A) (f : A → Cmd S B)
    → Ensures r P
    → ((a : A) (s : S) → P a s → Ensures (f a s) Q)
    → Ensures (and_then r f) Q
Ensures-bind P Q (ok a s) f p next = next a s p
Ensures-bind P Q (crash c) f p next = absurd p

pub Ensures-mono :
    {S A : Type 0} (P Q : A → S → Type 0) (r : Run S A)
    → Ensures r P
    → ((a : A) (s : S) → P a s → Q a s)
    → Ensures r Q
Ensures-mono P Q (ok a s) p weaken = weaken a s p
Ensures-mono P Q (crash c) p weaken = absurd p

pub Ensures-and :
    {S A : Type 0} (P Q : A → S → Type 0) (r : Run S A)
    → Ensures r P
    → Ensures r Q
    → Ensures r (λ a s. P a s × Q a s)
Ensures-and P Q (ok a s) p q = (p, q)
Ensures-and P Q (crash c) p q = absurd p

pub Ensures-put_back :
    {S T A : Type 0} (back : T → S) (Q : A → S → Type 0) (r : Run T A)
    → Ensures r (λ a t. Q a (back t))
    → Ensures (put_back back r) Q
Ensures-put_back back Q (ok a t) p = p
Ensures-put_back back Q (crash c) p = absurd p
