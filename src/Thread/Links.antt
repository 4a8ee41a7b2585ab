-- ===== src/Thread/Links.antt =====
-- Singly linked queues with a front and a back pointer, as src/kernel/thread.c keeps them: what
-- list such a queue stands for, and how writes to its links change the list.
use pinion.Base.{
  ℕ, ◌≡◌, refl, ◌≢◌, sym, List, [], ◌∷◌, ◌++◌, arith, ◌==◌, ◌∈◌, ◌∉◌, Distinct, erase, last_or,
  Distinct-snoc, mem-ne, ne_of_not-mem, last_or-snoc, last_or-mem, if◌then◌else◌, Bool-cases, inl,
  inr,
}
use pinion.Vm.{null}

-- From `p` the links lead through the entries of the list to NULL.
abbrev pub Chain : (ℕ → ℕ) → ℕ → List ℕ → Type 0
Chain link p [] = p ≡ null
Chain link p (x ∷ xs) = (p ≡ x) × (x ≢ null) × Chain link (link x) xs

pub record IsQueue (link : ℕ → ℕ) (front back : ℕ) (xs : List ℕ) : Type 0 where
  pub chain : Chain link front xs
  pub last : back ≡ last_or null xs
  pub distinct : Distinct xs

-- A chain depends on the links of its own entries only.
pub Chain-same :
    (f g : ℕ → ℕ) (p : ℕ) (xs : List ℕ)
    → ((a : ℕ) → a ∈ xs → g a ≡ f a)
    → Chain f p xs
    → Chain g p xs
Chain-same f g p [] same c = c
Chain-same f g p (x ∷ xs) same (e, n, c) =
    (e, n, Chain-same f g (g x) xs (λ a i. same a (ground arith)) (ground (arith, same x)))

-- The last entry is linked to `a`, and `a` to NULL.
pub Chain-snoc :
    (f g : ℕ → ℕ) (p x : ℕ) (xs : List ℕ) (a : ℕ)
    → a ≢ null
    → g a ≡ null
    → g (last_or x xs) ≡ a
    → ((b : ℕ) → b ≢ a → b ≢ last_or x xs → g b ≡ f b)
    → Distinct (x ∷ xs)
    → a ∉ (x ∷ xs)
    → Chain f p (x ∷ xs)
    → Chain g p (x ∷ xs ++ a ∷ [])
Chain-snoc f g p x [] a n ga gl other d out (e, m, c) = (e, m, (gl, n, ga))
Chain-snoc f g p x (y ∷ ys) a n ga gl other (dx, d) out (e, m, c) = (
  e,
  m,
  Chain-snoc f g (g x) y ys a n ga gl other d (ground arith) (
      ground (
        arith,
        other x (ne_of_not-mem a x (y ∷ ys) out)
            (mem-ne x (last_or y ys) (y ∷ ys) dx (last_or-mem y ys)),
      )),
)

-- The entry in front of `a` in `x ∷ xs`.
abbrev pub before : ℕ → ℕ → List ℕ → ℕ
before a x [] = x
before a x (y ∷ ys) = if y == a then x else before a y ys

pub before-mem : (a x : ℕ) (xs : List ℕ) → before a x xs ∈ (x ∷ xs)
before-mem a x [] = ground arith
before-mem a x (y ∷ ys) = ground (arith, before-mem a y ys)

-- The entry in front of `a` is linked to what follows `a`.
pub Chain-erase :
    (f g : ℕ → ℕ) (p a x : ℕ) (xs : List ℕ)
    → Distinct (x ∷ xs)
    → a ∈ xs
    → g (before a x xs) ≡ f a
    → ((b : ℕ) → b ≢ before a x xs → g b ≡ f b)
    → Chain f p (x ∷ xs)
    → Chain g p (x ∷ erase a xs)
Chain-erase f g p a x [] d i gb other c = cc
Chain-erase f g p a x (y ∷ ys) (dx, (dy, d)) i gb other (e, m, (ey, n, c)) =
    elim (Bool-cases (y == a)) [
      | inl here ↦
          let gx : g x ≡ f y = ground arith in
          rw here (
            e,
            m,
            rw gx (
                Chain-same f g (f y) ys
                  (λ b j. other b (rw here (λ q. absurd (mem-ne x b ys (ground arith) j (sym q)))))
                  c),
          )
      | inr there ↦
          let kept : g x ≡ f x =
            other x (rw there (mem-ne x (before a y ys) (y ∷ ys) dx (before-mem a y ys))) in
          rw there (
            e,
            m,
            Chain-erase f g (g x) a y ys (dy, d) (ground arith) (ground arith)
                (λ b q. other b (rw there q)) (rw kept (ey, n, c)),
          )
    ]

pub last_or-erase :
    (a x : ℕ) (xs : List ℕ)
    → Distinct (x ∷ xs)
    → a ∈ xs
    → last_or x (erase a xs) ≡ (if last_or x xs == a then before a x xs else last_or x xs)
last_or-erase a x [] d i = cc
last_or-erase a x (y ∷ []) d i = ground arith
last_or-erase a x (y ∷ z ∷ zs) (dx, (dy, d)) i = elim (Bool-cases (y == a)) [
  | inl here ↦ ground (arith, mem-ne y (last_or z zs) (z ∷ zs) dy (last_or-mem z zs))
  | inr there ↦ rw there (last_or-erase a y (z ∷ zs) (dy, d) (ground arith))
]

pub Chain-ne-null : (f : ℕ → ℕ) (p a : ℕ) (xs : List ℕ) → Chain f p xs → a ∈ xs → a ≢ null
Chain-ne-null f p a [] c i = cc
Chain-ne-null f p a (x ∷ xs) (e, n, c) i = ground (arith, Chain-ne-null f (f x) a xs c)

-- The back of a queue is NULL exactly when the queue is empty.
pub back-ne-null : (f : ℕ → ℕ) (p b x : ℕ) (xs : List ℕ) → IsQueue f p b (x ∷ xs) → b ≢ null
back-ne-null f p b x xs q =
    rw q.last (Chain-ne-null f p (last_or x xs) (x ∷ xs) q.chain (last_or-mem x xs))

-- A queue after a push of `t` at its back: the old back, if there is one, is linked to `t`.
pub IsQueue-snoc :
    (f g : ℕ → ℕ) (p b p' t : ℕ) (xs : List ℕ)
    → t ≢ null
    → t ∉ xs
    → p' ≡ (if b == null then t else p)
    → g t ≡ null
    → (b ≢ null → b ≢ t → g b ≡ t)
    → ((c : ℕ) → c ≢ t → c ≢ b → g c ≡ f c)
    → IsQueue f p b xs
    → IsQueue g p' t (xs ++ t ∷ [])
IsQueue-snoc f g p b p' t [] n out e gt gb other q = record {
  chain = ground arith;
  last = refl;
  distinct = (refl, tt);
}
IsQueue-snoc f g p b p' t (x ∷ xs) n out e gt gb other q =
    let full : b ≢ null = back-ne-null f p b x xs q in
    let apart : b ≢ t =
      rw q.last (λ j. mem-ne t (last_or x xs) (x ∷ xs) out (last_or-mem x xs) (sym j)) in
    record {
      chain =
          Chain-snoc f g p' x xs t n gt (rw (sym q.last) (gb full apart))
            (λ c ne off. other c ne (rw q.last off)) q.distinct out
            (ground arith, q.chain.1, q.chain.2);
      last = sym (last_or-snoc x xs t);
      distinct = Distinct-snoc (x ∷ xs) t q.distinct out;
    }

-- A queue after its front is taken off.
pub IsQueue-tail :
    (f : ℕ → ℕ) (p b x : ℕ) (xs : List ℕ)
    → IsQueue f p b (x ∷ xs)
    → IsQueue f (f p) (if f p == null then null else b) xs
IsQueue-tail f p b x [] q =
    rw q.chain.0 (record { chain = q.chain.2; last = ground (arith, q.chain.2); distinct = tt })
IsQueue-tail f p b x (y ∷ ys) q = rw q.chain.0 (record {
  chain = q.chain.2;
  last = ground (arith, q.chain.2, q.last);
  distinct = q.distinct.1;
})

-- A queue depends on the links of its own entries only.
pub IsQueue-same :
    (f g : ℕ → ℕ) (p b : ℕ) (xs : List ℕ)
    → ((a : ℕ) → a ∈ xs → g a ≡ f a)
    → IsQueue f p b xs
    → IsQueue g p b xs
IsQueue-same f g p b xs same q = record {
  chain = Chain-same f g p xs same q.chain;
  last = q.last;
  distinct = q.distinct;
}
