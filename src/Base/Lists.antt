-- ===== src/Base/Lists.antt =====
-- Lists of addresses and numbers: length, membership as a Boolean, distinctness.
use Prim.Native.Nat.{ℕ, suc, ◌+◌}
use mathlib.Core.Path.{◌≡◌, refl, ap}
use mathlib.Core.Bool.{Bool, true, false, ◌||◌}
use mathlib.Core.Logic.{◌≢◌, inl, inr}
use mathlib.Core.List.{List, [], ◌∷◌, ◌++◌}
use native.Mathlib.Omega.{arith}
use pinion.Base.Tests.{Bool-cases, ◌==◌, if◌then◌else◌}

module _ {ℓ} {A : Type ℓ} where
  abbrev pub length : List A → ℕ
  length [] = 0
  length (x ∷ xs) = suc (length xs)

  pub length-append : (xs ys : List A) → length (xs ++ ys) ≡ length xs + length ys
  length-append [] ys = omega arith
  length-append (x ∷ xs) ys = omega (arith, length-append xs ys)

pub append_assoc {ℓ} : {A : Type ℓ} (xs ys zs : List A) → (xs ++ ys) ++ zs ≡ xs ++ (ys ++ zs)
append_assoc [] ys zs = refl
append_assoc (x ∷ xs) ys zs = ap (λ r. x ∷ r) (append_assoc xs ys zs)

abbrev pub has : ℕ → List ℕ → Bool
has a [] = false
has a (x ∷ xs) = (a == x) || has a xs

infix 40 ◌∈◌ ◌∉◌
abbrev pub ◌∈◌ : ℕ → List ℕ → Type 0
a ∈ xs = has a xs ≡ true

abbrev pub ◌∉◌ : ℕ → List ℕ → Type 0
a ∉ xs = has a xs ≡ false

abbrev pub Distinct : List ℕ → Type 0
Distinct [] = Unit
Distinct (x ∷ xs) = (x ∉ xs) × Distinct xs

-- The list without the first `a`.
abbrev pub erase : ℕ → List ℕ → List ℕ
erase a [] = []
erase a (x ∷ xs) = if x == a then xs else x ∷ erase a xs

-- The last entry, or `d`.
abbrev pub last_or : ℕ → List ℕ → ℕ
last_or d [] = d
last_or d (x ∷ xs) = last_or x xs

pub has-append : (a : ℕ) (xs ys : List ℕ) → has a (xs ++ ys) ≡ (has a xs || has a ys)
has-append a [] ys = refl
has-append a (x ∷ xs) ys = ground (arith, has-append a xs ys)

pub has-erase : (a b : ℕ) (xs : List ℕ) → a ∉ xs → a ∉ erase b xs
has-erase a b [] h = refl
has-erase a b (x ∷ xs) h = ground (arith, has-erase a b xs)

pub Distinct-erase : (a : ℕ) (xs : List ℕ) → Distinct xs → Distinct (erase a xs)
Distinct-erase a [] d = tt
Distinct-erase a (x ∷ xs) d = ground (arith, Distinct-erase a xs d.1, has-erase x a xs)

pub erase-none : (a : ℕ) (xs : List ℕ) → a ∉ xs → erase a xs ≡ xs
erase-none a [] h = refl
erase-none a (x ∷ xs) h = ground (arith, erase-none a xs)

pub not-mem-erase : (a : ℕ) (xs : List ℕ) → Distinct xs → a ∉ erase a xs
not-mem-erase a [] d = refl
not-mem-erase a (x ∷ xs) d = ground (arith, not-mem-erase a xs d.1)

pub Distinct-snoc : (xs : List ℕ) (a : ℕ) → Distinct xs → a ∉ xs → Distinct (xs ++ a ∷ [])
Distinct-snoc [] a d h = (refl, tt)
Distinct-snoc (x ∷ xs) a d h = ground (arith, has-append x xs (a ∷ []), Distinct-snoc xs a d.1)

pub last_or-snoc : (d : ℕ) (xs : List ℕ) (a : ℕ) → last_or d (xs ++ a ∷ []) ≡ a
last_or-snoc d [] a = refl
last_or-snoc d (x ∷ xs) a = last_or-snoc x xs a

pub last_or-mem : (d : ℕ) (xs : List ℕ) → last_or d xs ∈ (d ∷ xs)
last_or-mem d [] = ground arith
last_or-mem d (x ∷ xs) = ground (arith, last_or-mem x xs)

pub mem-ne : (a b : ℕ) (xs : List ℕ) → a ∉ xs → b ∈ xs → a ≢ b
mem-ne a b xs out i e = let f : has a xs ≡ has b xs = ap (λ t. has t xs) e in cc

pub ne_of_not-mem : (a x : ℕ) (xs : List ℕ) → a ∉ (x ∷ xs) → x ≢ a
ne_of_not-mem a x xs out = ground arith

-- What is not a member, since a member would lead to a contradiction.
pub not-mem-by : (a : ℕ) (xs : List ℕ) → (a ∈ xs → ⊥) → a ∉ xs
not-mem-by a xs off = elim (Bool-cases (has a xs)) [ inl i ↦ absurd (off i) | inr out ↦ out ]
