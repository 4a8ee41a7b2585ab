-- ===== src/Thread/Sched/Fifo.antt =====
-- `schedule_push` of src/kernel/thread.c, and the list that the scheduler's queue stands for.
use pinion.Base.{
  ℕ, ◌≡◌, refl, ◌≢◌, List, [], ◌∷◌, ◌++◌, arith, ok, Ensures, ◌==◌, if◌then◌else◌, update, ◌∉◌,
}
use pinion.Vm.{null}
use pinion.Kernel.{Kernel}
use pinion.Thread.Links.{IsQueue, IsQueue-snoc}
use pinion.Thread.Sched.{schedule_push}

-- The scheduler's link of each thread.
abbrev pub next_of : Kernel → ℕ → ℕ
next_of k p = (k.mem p).next

-- The queue of `k` holds the threads `xs`, the next to run first.
abbrev pub IsSched : Kernel → List ℕ → Type 0
IsSched k xs = IsQueue (next_of k) k.sched_head k.sched_tail xs

-- `l` is `k` but for the scheduler's pointers and links.
abbrev pub SameButSched : Kernel → Kernel → Type 0
SameButSched k l =
    (l ≡ record k { mem = l.mem; sched_head = l.sched_head; sched_tail = l.sched_tail })
    × ((p : ℕ) → l.mem p ≡ record (k.mem p) { next = (l.mem p).next })

-- What `schedule_push` makes of the state.
abbrev pub pushed : ℕ → Kernel → Kernel
pushed t k =
    let linked =
      if k.sched_tail == null
      then k.mem
      else update k.mem k.sched_tail (record (k.mem k.sched_tail) { next = t }) in
    record k {
      mem = update linked t (record (linked t) { next = null });
      sched_head = if k.sched_tail == null then t else k.sched_head;
      sched_tail = t;
    }

pub schedule_push-pushed : (t : ℕ) (k : Kernel) → t ≢ null → schedule_push t k ≡ ok 0 (pushed t k)
unfolding schedule_push
schedule_push-pushed t k n = ground arith

pub pushed-IsSched :
    (t : ℕ) (k : Kernel) (xs : List ℕ)
    → t ≢ null
    → t ∉ xs
    → IsSched k xs
    → IsSched (pushed t k) (xs ++ t ∷ [])
pushed-IsSched t k xs n out q =
    IsQueue-snoc (next_of k) (next_of (pushed t k)) k.sched_head k.sched_tail _ t xs n out refl
      (ground arith) (λ full apart. ground arith) (λ c ne off. ground arith) q

pushed-SameButSched : (t : ℕ) (k : Kernel) → SameButSched k (pushed t k)
pushed-SameButSched t k = (refl, λ p. ground arith)

-- `schedule_push` of a thread that is not in the queue returns 0 and puts the thread at the end of
-- the queue. Nothing changes but the scheduler's pointers and links.
pub schedule_push-enqueue :
    (t : ℕ) (k : Kernel) (xs : List ℕ)
    → t ≢ null
    → t ∉ xs
    → IsSched k xs
    → Ensures (schedule_push t k) (λ r l. (r ≡ 0) × IsSched l (xs ++ t ∷ []) × SameButSched k l)
schedule_push-enqueue t k xs n out q =
    rw (schedule_push-pushed t k n) (refl, pushed-IsSched t k xs n out q, pushed-SameButSched t k)
