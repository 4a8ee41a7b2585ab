-- ===== src/Base/Tests.antt =====
-- Boolean tests on native numbers, the conditional, and update of an array at one index.
use Prim.Native.Nat.{ℕ, ◌≤◌, ◌<◌, compare, Ordering}
use mathlib.Core.Path.{◌≡◌, refl, subst, ap, ◌∙◌}
use mathlib.Core.Logic.{◌↔◌, ◌⊎◌, ◌≢◌, inl, inr}
use mathlib.Core.Bool.{Bool, true, false}
use native.Mathlib.Omega.{arith}

abbrev pub ltb : ℕ → ℕ → Bool
ltb a b = elim (compare a b) [ Ordering.lt ↦ true | _ ↦ false ]

abbrev pub leb : ℕ → ℕ → Bool
leb a b = elim (compare a b) [ Ordering.gt ↦ false | _ ↦ true ]

infix 50 ◌==◌
abbrev pub ◌==◌ : ℕ → ℕ → Bool
a == b = elim (compare a b) [ Ordering.eq ↦ true | _ ↦ false ]

infix 1 if◌then◌else◌
abbrev pub if◌then◌else◌ {ℓ} : {A : Type ℓ} → Bool → A → A → A
if true then x else y = x
if false then x else y = y

-- A C array or a store of structures, written at one index.
abbrev pub update {ℓ} : {A : Type ℓ} → (ℕ → A) → ℕ → A → ℕ → A
update f p v q = if q == p then v else f q

pub ==_iff : (a b : ℕ) → ((a == b) ≡ true) ↔ (a ≡ b)
==_iff a b = ground arith

pub ==_refl : (a : ℕ) → (a == a) ≡ true
==_refl a = ground arith

pub ==_ne : (a b : ℕ) → a ≢ b → (a == b) ≡ false
==_ne a b h = ground arith

pub lt→ltb : (a b : ℕ) → a < b → ltb a b ≡ true
lt→ltb a b h = ground arith

pub le→ltb : (a b : ℕ) → b ≤ a → ltb a b ≡ false
le→ltb a b h = ground arith

pub Bool-cases : (b : Bool) → (b ≡ true) ⊎ (b ≡ false)
Bool-cases true = inl refl
Bool-cases false = inr refl

pub update_self {ℓ} : {A : Type ℓ} (f : ℕ → A) (p : ℕ) (v : A) → update f p v p ≡ v
update_self f p v = rw (==_refl p)

pub update_ne {ℓ} : {A : Type ℓ} (f : ℕ → A) (p q : ℕ) (v : A) → q ≢ p → update f p v q ≡ f q
update_ne f p q v h = rw (==_ne q p h)

-- A property of all entries after one is written.
pub update-all :
    {A : Type 0} (P : ℕ → A → Type 0) (f : ℕ → A) (n : ℕ) (v : A)
    → P n v
    → ((e : ℕ) → e ≢ n → P e (f e))
    → (e : ℕ) → P e (update f n v e)
update-all P f n v here others e = elim (Bool-cases (e == n)) [
  | inl same ↦ rw same (subst (λ x. P x v) (let i : n ≡ e = ground (arith, same) in i) here)
  | inr ne ↦ rw ne (others e (ground (arith, ne)))
]

-- What a write to one structure keeps of each structure, where it keeps it of all.
pub update_field :
    {A : Type 0} (g : A → ℕ) (f : A → A) (mem : ℕ → A) (t p : ℕ)
    → ((s : A) → g (f s) ≡ g s)
    → g (update mem t (f (mem t)) p) ≡ g (mem p)
update_field g f mem t p keeps = elim (Bool-cases (p == t)) [
  | inl e ↦
      let same : t ≡ p = ground (arith, e) in rw e (keeps (mem t) ∙ ap (λ (o : ℕ). g (mem o)) same)
  | inr ne ↦ rw ne
]
