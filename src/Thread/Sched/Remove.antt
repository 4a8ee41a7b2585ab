-- ===== src/Thread/Sched/Remove.antt =====
-- `schedule_remv` of src/kernel/thread.c.
use pinion.Base.{
  ℕ, zero, suc, ◌≤◌, ◌<◌, ◌≡◌, refl, sym, ap, ◌≢◌, ◌∙◌, false, inl, inr, List, [], ◌∷◌, arith, ok,
  Ensures, ◌==◌, if◌then◌else◌, update, Bool-cases, ◌∈◌, ◌∉◌, erase, length, ne_of_not-mem,
  Distinct-erase, has-erase,
}
use pinion.Vm.{null}
use pinion.Kernel.{Kernel, thread_count}
use pinion.Thread.Links.{
  Chain, IsQueue-tail, Chain-ne-null, Chain-erase, before, last_or-erase, before-mem,
}
use pinion.Thread.Sched.{schedule_remv, remv_loop, remv_head, unlink_after}
use pinion.Thread.Sched.Fifo.{next_of, IsSched, SameButSched}

abbrev unlinked : ℕ → ℕ → Kernel → Kernel
unlinked a b k = record k {
  mem = update k.mem b (record (k.mem b) { next = (k.mem a).next });
  sched_tail = if k.sched_tail == a then b else k.sched_tail;
}

unlink_after-unlinked :
    (a b : ℕ) (k : Kernel) → a ≢ null → b ≢ null → unlink_after a b k ≡ ok 0 (unlinked a b k)
unfolding unlink_after
unlink_after-unlinked a b k n m = ground arith

-- The loop stops at the entry in front of `a`, or after the last entry.
remv_loop-found :
    (fuel a x : ℕ) (k : Kernel) (xs : List ℕ)
    → length xs < fuel
    → a ∈ xs
    → Chain (next_of k) (next_of k x) xs
    → remv_loop fuel a x k ≡ unlink_after a (before a x xs) k
unfolding remv_loop
remv_loop-found zero a x k xs h i c = absurd (omega arith)
remv_loop-found (suc fuel) a x k [] h i c = cc
remv_loop-found (suc fuel) a x k (y ∷ ys) h i (e, n, c) =
    ground (arith, remv_loop-found fuel a y k ys, c)

remv_loop-missing :
    (fuel a x : ℕ) (k : Kernel) (xs : List ℕ)
    → length xs < fuel
    → a ∉ xs
    → Chain (next_of k) (next_of k x) xs
    → remv_loop fuel a x k ≡ ok 1 k
unfolding remv_loop
remv_loop-missing zero a x k xs h i c = absurd (omega arith)
remv_loop-missing (suc fuel) a x k [] h i c = ground arith
remv_loop-missing (suc fuel) a x k (y ∷ ys) h i (e, n, c) =
    ground (arith, remv_loop-missing fuel a y k ys, c)

abbrev pub headless : Kernel → Kernel
headless k =
    let rest = (k.mem k.sched_head).next in
    record k { sched_head = rest; sched_tail = if rest == null then null else k.sched_tail }

remv_head-headless : (k : Kernel) → k.sched_head ≢ null → remv_head k ≡ ok 0 (headless k)
unfolding remv_head
remv_head-headless k n = ground arith

pub headless-IsSched :
    (k : Kernel) (x : ℕ) (xs : List ℕ) → IsSched k (x ∷ xs) → IsSched (headless k) xs
headless-IsSched k x xs q = IsQueue-tail (next_of k) k.sched_head k.sched_tail x xs q

-- What `schedule_remv` does with a thread that is in the queue, by where it stands.
pub remv-at-head :
    (t : ℕ) (k : Kernel) (x : ℕ) (xs : List ℕ)
    → x ≡ t
    → IsSched k (x ∷ xs)
    → schedule_remv t k ≡ ok 0 (headless k)
unfolding schedule_remv
remv-at-head t k x xs e q = ground (arith, q.chain.0, q.chain.1, remv_head-headless k)

past-head :
    (t : ℕ) (k : Kernel) (x : ℕ) (xs : List ℕ)
    → t ≢ x
    → IsSched k (x ∷ xs)
    → schedule_remv t k ≡ remv_loop 1025 t k.sched_head k
unfolding schedule_remv
past-head t k x xs ne q =
    let some_head : (k.sched_head == null) ≡ false = ground (arith, q.chain.0, q.chain.1) in
    let other : (t == k.sched_head) ≡ false = ground (arith, q.chain.0) in rw (some_head, other)

remv-behind-head :
    (t : ℕ) (k : Kernel) (x : ℕ) (xs : List ℕ)
    → x ≢ t
    → t ∈ xs
    → t ≢ null
    → length xs ≤ thread_count
    → IsSched k (x ∷ xs)
    → schedule_remv t k ≡ ok 0 (unlinked t (before t x xs) k)
unfolding schedule_remv
remv-behind-head t k x xs ne i n few q =
    let c : Chain (next_of k) (next_of k x) xs = q.chain.2 in
    let found : remv_loop 1025 t x k ≡ unlink_after t (before t x xs) k =
      remv_loop-found 1025 t x k xs (omega arith) i c in
    let done : unlink_after t (before t x xs) k ≡ ok 0 (unlinked t (before t x xs) k) =
      unlink_after-unlinked t (before t x xs) k n (
        Chain-ne-null (next_of k) k.sched_head (before t x xs) (x ∷ xs) q.chain
          (before-mem t x xs)) in
    rw (past-head t k x xs (λ e. ne (sym e)) q)
      (ap (λ h. remv_loop 1025 t h k) q.chain.0 ∙ found ∙ done)

unlinked-IsSched :
    (t : ℕ) (k : Kernel) (x : ℕ) (xs : List ℕ)
    → t ∈ xs
    → IsSched k (x ∷ xs)
    → IsSched (unlinked t (before t x xs) k) (x ∷ erase t xs)
unlinked-IsSched t k x xs i q = record {
  chain =
      Chain-erase (next_of k) (next_of (unlinked t (before t x xs) k)) k.sched_head t x xs
        q.distinct i (ground arith) (λ b off. ground arith) q.chain;
  last = ground (arith, q.last, last_or-erase t x xs q.distinct i);
  distinct = (has-erase x t xs q.distinct.0, Distinct-erase t xs q.distinct.1);
}

-- `schedule_remv` of a thread that is in the queue, wherever it stands, returns 0 and takes just
-- that thread out: the others keep their order. Nothing changes but the scheduler's pointers and
-- links. The queue holds at most THREAD_COUNT threads.
pub schedule_remv-erase :
    (t : ℕ) (k : Kernel) (xs : List ℕ)
    → length xs ≤ thread_count
    → t ∈ xs
    → IsSched k xs
    → Ensures (schedule_remv t k) (λ r l. (r ≡ 0) × IsSched l (erase t xs) × SameButSched k l)
schedule_remv-erase t k [] few i q = cc
schedule_remv-erase t k (x ∷ xs) few i q = elim (Bool-cases (x == t)) [
  | inl here ↦
      rw (remv-at-head t k x xs (ground arith) q, here)
        (refl, headless-IsSched k x xs q, (refl, λ p. refl))
  | inr there ↦
      rw
        (
          remv-behind-head t k x xs (ground arith) (ground arith)
              (Chain-ne-null (next_of k) k.sched_head t (x ∷ xs) q.chain i) (omega arith) q,
          there,
        )
        (refl, unlinked-IsSched t k x xs (ground arith) q, (refl, λ p. ground arith))
]

-- `schedule_remv` of a thread that is not in the queue returns 1 and changes nothing. The queue
-- holds at most THREAD_COUNT threads.
pub schedule_remv-missing :
    (t : ℕ) (k : Kernel) (xs : List ℕ)
    → length xs ≤ thread_count
    → t ∉ xs
    → IsSched k xs
    → schedule_remv t k ≡ ok 1 k
unfolding schedule_remv
schedule_remv-missing t k [] few out q = ground (arith, q.chain)
schedule_remv-missing t k (x ∷ xs) few out q =
    let missing : remv_loop 1025 t x k ≡ ok 1 k =
      remv_loop-missing 1025 t x k xs (omega arith) (ground arith) q.chain.2 in
    rw (past-head t k x xs (λ e. ne_of_not-mem t x xs out (sym e)) q)
      (ap (λ h. remv_loop 1025 t h k) q.chain.0 ∙ missing)
