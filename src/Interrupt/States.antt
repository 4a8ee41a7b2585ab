-- ===== src/Interrupt/States.antt =====
-- The states of threads, as src/kernel/thread.h numbers them, before and after one of them changes.
use pinion.Base.{
  ℕ, ◌≡◌, refl, sym, ap, ◌∙◌, ◌≢◌, inl, inr, arith, List, [], ◌∷◌, ◌∉◌, Bool, true, false, not,
  ◌&&◌, erase, has, Distinct, Bool-cases, ◌==◌, if◌then◌else◌,
}
use pinion.Kernel.{Kernel}

pub has-erase-Distinct :
    (p a : ℕ) (xs : List ℕ) → Distinct xs → has p (erase a xs) ≡ (has p xs && not (p == a))
has-erase-Distinct p a [] d = refl
has-erase-Distinct p a (x ∷ xs) d = ground (arith, has-erase-Distinct p a xs d.1, d.0)

-- The test of a thread's state after only the state of `a` has changed.
pub state_test :
    (f g : ℕ → ℕ) (a st c p : ℕ)
    → g a ≡ st
    → ((q : ℕ) → q ≢ a → g q ≡ f q)
    → (g p == c) ≡ (if p == a then st == c else f p == c)
state_test f g a st c p here kept = elim (Bool-cases (p == a)) [
  | inl e ↦
      let same : p ≡ a = ground (arith, e) in
      rw (e, (let i : g p ≡ st = ap g same ∙ here in i)) refl
  | inr ne ↦ rw (ne, kept p (ground (arith, ne))) refl
]

has_same : (p a : ℕ) (xs : List ℕ) → (p == a) ≡ true → has p xs ≡ has a xs
has_same p a xs e = ap (λ t. has t xs) (let same : p ≡ a = ground (arith, e) in same)

-- The state of each thread.
abbrev pub states : Kernel → ℕ → ℕ
states k p = (k.mem p).state

pub head_queued :
    (p x : ℕ) (xs : List ℕ) {b : Bool}
    → b ≡ has p (x ∷ xs)
    → x ∉ xs
    → (if p == x then false else b) ≡ has p xs
head_queued p x xs h out = elim (Bool-cases (p == x)) [
  | inl e ↦ rw e (sym (has_same p x xs e ∙ out))
  | inr ne ↦ rw ne (h ∙ ground (arith, ne))
]

pub pred_same :
    (ps : ℕ → Bool) (p a : ℕ) (v : Bool) {b : Bool}
    → b ≡ ps p
    → ps a ≡ v
    → (if p == a then v else b) ≡ ps p
pred_same ps p a v h here = elim (Bool-cases (p == a)) [
  | inl e ↦ rw e (sym (ap ps (let same : p ≡ a = ground (arith, e) in same) ∙ here))
  | inr ne ↦ rw ne h
]
