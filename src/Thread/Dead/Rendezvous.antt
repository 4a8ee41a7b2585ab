-- ===== src/Thread/Dead/Rendezvous.antt =====
-- The dead queue and the reapers of src/kernel/thread.c as lists.
use pinion.Base.{
  subst, ◌∙◌, ap, ℕ, ◌≡◌, refl, sym, ◌≢◌, List, [], ◌∷◌, ◌++◌, ◌∉◌, arith, Ensures, Ensures-mono,
  ok, if◌then◌else◌, ◌==◌, update, ==_ne, pure, ◌>>◌,
}
use pinion.Vm.{null}
use pinion.Kernel.{Kernel, load, edit, ts_queued}
use pinion.Thread.Links.{IsQueue, IsQueue-snoc, IsQueue-tail, IsQueue-same}
use pinion.Thread.Sched.{schedule_push}
use pinion.Thread.Sched.Fifo.{IsSched, next_of, schedule_push-pushed, pushed, pushed-IsSched}
use pinion.Thread.Dead.{notify, reaper_pull, dead_enqueue, dead_push, dead_pull, dead_wait}

abbrev pub deadlink_of : Kernel → ℕ → ℕ
deadlink_of k p = (k.mem p).next_dead

-- The dead threads that no reaper has been told of, the oldest first; the waiting reapers.
abbrev pub IsDead : Kernel → List ℕ → Type 0
IsDead k xs = IsQueue (deadlink_of k) k.dead_tail k.dead_head xs

abbrev pub IsReaping : Kernel → List ℕ → Type 0
IsReaping k xs = IsQueue (deadlink_of k) k.reaper_tail k.reaper_head xs

-- `w` has been told `id` and stands behind `ys` in the scheduler's queue; otherwise `l` is `k` but
-- for the scheduler's links and pointers.
pub record Notified (k : Kernel) (w id : ℕ) (ys : List ℕ) (l : Kernel) : Type 0 where
  pub eax : (l.mem w).eax ≡ id
  pub state : (l.mem w).state ≡ ts_queued
  pub sched : IsSched l (ys ++ w ∷ [])
  pub rest : l ≡ record k { mem = l.mem; sched_head = l.sched_head; sched_tail = l.sched_tail }
  pub links : (p : ℕ) → (l.mem p).next_dead ≡ (k.mem p).next_dead
  pub fault_links : (p : ℕ) → (l.mem p).next_fault ≡ (k.mem p).next_fault

abbrev pub told : ℕ → ℕ → Kernel → Kernel
told w id k = record k { mem = update k.mem w (record (k.mem w) { eax = id }) }

pub notify-steps :
    (w id : ℕ) (k : Kernel)
    → w ≢ null
    → notify w id k
      ≡ (schedule_push w >> (edit w (λ t. record t { state = ts_queued }) >> pure 0)) (told w id k)
unfolding notify edit
notify-steps w id k n = ground arith

pub notify-Notified :
    (k : Kernel) (w id : ℕ) (ys : List ℕ)
    → w ≢ null
    → w ∉ ys
    → IsSched k ys
    → Ensures (notify w id k) (λ r l. (r ≡ 0) × Notified k w id ys l)
unfolding edit
notify-Notified k w id ys n out q =
    let m = told w id k in
    let q' : IsSched (pushed w m) (ys ++ w ∷ []) =
      pushed-IsSched w m ys n out
        (IsQueue-same (next_of k) _ k.sched_head k.sched_tail ys (λ a i. ground arith) q) in
    rw (notify-steps w id k n, schedule_push-pushed w m n, ==_ne w null n)
      (
        refl,
        record {
          eax = ground arith;
          state = ground arith;
          sched = IsQueue-same (next_of (pushed w m)) _ _ w (ys ++ w ∷ []) (λ a i. ground arith) q';
          rest = refl;
          links = λ p. ground arith;
          fault_links = λ p. ground arith;
        },
      )

-- The state after the oldest dead thread has left the queue.
abbrev pub pulled : Kernel → Kernel
pulled k =
    let next = (k.mem k.dead_tail).next_dead in
    record k { dead_tail = next; dead_head = if next == null then null else k.dead_head }

pub dead_pull-pulled : (k : Kernel) → k.dead_tail ≢ null → dead_pull k ≡ ok k.dead_tail (pulled k)
unfolding dead_pull
dead_pull-pulled k n = ground arith

-- `dead_pull` returns the thread that has been dead the longest and takes it, and only it, out of
-- the queue; nothing else changes.
pub dead_pull-oldest :
    (k : Kernel) (x : ℕ) (xs : List ℕ)
    → IsDead k (x ∷ xs)
    → Ensures (dead_pull k) (λ r l.
      (r ≡ x) × IsDead l xs × (l ≡ record k { dead_tail = l.dead_tail; dead_head = l.dead_head }))
dead_pull-oldest k x xs q =
    let n : k.dead_tail ≢ null = ground (arith, q.chain.0, q.chain.1) in
    rw (dead_pull-pulled k n)
      (q.chain.0, IsQueue-tail (deadlink_of k) k.dead_tail k.dead_head x xs q, refl)

dead_wait-steps :
    (k : Kernel) (reaper : ℕ)
    → k.dead_tail ≢ null
    → dead_wait reaper k ≡ notify reaper (k.mem k.dead_tail).id (pulled k)
unfolding dead_wait load
dead_wait-steps k reaper n = ground (arith, dead_pull-pulled k n)

kept-IsDead :
    (k l : Kernel) (w id : ℕ) (xs ys : List ℕ) → Notified k w id ys l → IsDead k xs → IsDead l xs
kept-IsDead k l w id xs ys h q =
    let et : l.dead_tail ≡ k.dead_tail = ap (λ (m : Kernel). m.dead_tail) h.rest in
    let eh : l.dead_head ≡ k.dead_head = ap (λ (m : Kernel). m.dead_head) h.rest in
    rw (et, eh)
      (IsQueue-same (deadlink_of k) (deadlink_of l) k.dead_tail k.dead_head xs (λ a i. h.links a) q)

kept-IsReaping :
    (k l : Kernel) (w id : ℕ) (xs ys : List ℕ)
    → Notified k w id ys l
    → IsReaping k xs
    → IsReaping l xs
kept-IsReaping k l w id xs ys h q =
    let et : l.reaper_tail ≡ k.reaper_tail = ap (λ (m : Kernel). m.reaper_tail) h.rest in
    let eh : l.reaper_head ≡ k.reaper_head = ap (λ (m : Kernel). m.reaper_head) h.rest in
    rw (et, eh)
      (IsQueue-same (deadlink_of k) (deadlink_of l) k.reaper_tail k.reaper_head xs
        (λ a i. h.links a) q)

-- `dead_wait` with dead threads in the queue: the caller is told the ID of the one that has been
-- dead the longest, which leaves the queue, and it goes behind `ys` in the scheduler's queue.
pub dead_wait-oldest :
    (k : Kernel) (reaper x : ℕ) (xs ys : List ℕ)
    → reaper ≢ null
    → reaper ∉ ys
    → IsDead k (x ∷ xs)
    → IsSched k ys
    → Ensures (dead_wait reaper k) (λ r l.
      (r ≡ 0)
      × IsDead l xs
      × ((l.mem reaper).eax ≡ (k.mem x).id)
      × ((l.mem reaper).state ≡ ts_queued)
      × IsSched l (ys ++ reaper ∷ []))
dead_wait-oldest k reaper x xs ys n out q s =
    let m = pulled k in
    let full : k.dead_tail ≢ null = ground (arith, q.chain.0, q.chain.1) in
    let q' : IsDead m xs = IsQueue-tail (deadlink_of k) k.dead_tail k.dead_head x xs q in
    let s' : IsSched m ys = s in
    rw (dead_wait-steps k reaper full) (
      Ensures-mono (λ r l. (r ≡ 0) × Notified m reaper (k.mem k.dead_tail).id ys l) _
        (notify reaper (k.mem k.dead_tail).id m)
        (notify-Notified m reaper (k.mem k.dead_tail).id ys n out s')
        (λ r l h. (
          h.0,
          kept-IsDead m l reaper _ xs ys h.1 q',
          h.1.eax ∙ ap (λ p. (k.mem p).id) q.chain.0,
          h.1.state,
          h.1.sched,
        )))

-- The state after the oldest reaper has left its queue.
abbrev pub reaped : Kernel → Kernel
reaped k =
    let next = (k.mem k.reaper_tail).next_dead in
    record k { reaper_tail = next; reaper_head = if next == null then null else k.reaper_head }

pub dead_push-steps :
    (k : Kernel) (t : ℕ)
    → t ≢ null
    → k.reaper_tail ≢ null
    → dead_push t k ≡ notify k.reaper_tail (k.mem t).id (reaped k)
unfolding dead_push reaper_pull load
dead_push-steps k t n m = ground arith

-- The reaper `r` has been told of the dead thread `t`, left the waiting reapers to `rs` and the dead
-- queue to `xs`, and stands behind `ys` in the scheduler's queue.
abbrev pub Handed : Kernel → ℕ → ℕ → List ℕ → List ℕ → List ℕ → ℕ → Kernel → Type 0
Handed k t r rs xs ys c l =
    (c ≡ 0)
    × IsReaping l rs
    × IsDead l xs
    × ((l.mem r).eax ≡ (k.mem t).id)
    × ((l.mem r).state ≡ ts_queued)
    × IsSched l (ys ++ r ∷ [])

-- `dead_push` while reapers wait: the one that has waited longest leaves its queue, is told the ID
-- of the dead thread, and goes behind `ys` in the scheduler's queue. The dead thread does not enter
-- the dead queue, which stays as it was.
pub dead_push-reaper :
    (k : Kernel) (t r : ℕ) (rs xs ys : List ℕ)
    → t ≢ null
    → r ∉ ys
    → IsReaping k (r ∷ rs)
    → IsDead k xs
    → IsSched k ys
    → Ensures (dead_push t k) (Handed k t r rs xs ys)
dead_push-reaper k t r rs xs ys n out w q s =
    let m = reaped k in
    let e : k.reaper_tail ≡ r = w.chain.0 in
    let full : k.reaper_tail ≢ null = ground (arith, w.chain.0, w.chain.1) in
    let w' : IsReaping m rs = IsQueue-tail (deadlink_of k) k.reaper_tail k.reaper_head r rs w in
    let id = (k.mem t).id in
    let notified : Ensures (notify r id m) (λ c l. (c ≡ 0) × Notified m r id ys l) =
      notify-Notified m r id ys w.chain.1 out s in
    subst (λ x. Ensures x (Handed k t r rs xs ys))
      (sym (dead_push-steps k t n full ∙ ap (λ p. notify p id m) e))
      (Ensures-mono (λ c l. (c ≡ 0) × Notified m r id ys l) (Handed k t r rs xs ys) (notify r id m)
        notified
        (λ c l h. (
          h.0,
          kept-IsReaping m l r id rs ys h.1 w',
          kept-IsDead m l r id xs ys h.1 q,
          h.1.eax,
          h.1.state,
          h.1.sched,
        )))

-- What `dead_enqueue` makes of the state.
abbrev buried : ℕ → Kernel → Kernel
buried t k =
    let m = update k.mem k.dead_head (record (k.mem k.dead_head) { next_dead = t }) in
    record k {
      mem = if k.dead_head == null then k.mem else update m t (record (m t) { next_dead = null });
      dead_tail = if k.dead_head == null then t else k.dead_tail;
      dead_head = t;
    }

dead_push-buried :
    (k : Kernel) (t : ℕ) → t ≢ null → k.reaper_tail ≡ null → dead_push t k ≡ ok 0 (buried t k)
unfolding dead_push dead_enqueue
dead_push-buried k t n none_waits = ground arith

-- `dead_push` while no reaper waits puts the thread at the end of the dead queue, provided that its
-- link is clear when the queue is empty: on that branch the source does not clear it.
pub dead_push-enqueue :
    (k : Kernel) (t : ℕ) (xs : List ℕ)
    → t ≢ null
    → t ∉ xs
    → k.reaper_tail ≡ null
    → (k.dead_head ≡ null → (k.mem t).next_dead ≡ null)
    → IsDead k xs
    → Ensures (dead_push t k) (λ r l. (r ≡ 0) × IsDead l (xs ++ t ∷ []))
dead_push-enqueue k t xs n out none_waits clear q = rw (dead_push-buried k t n none_waits) (
  refl,
  IsQueue-snoc (deadlink_of k) (deadlink_of (buried t k)) k.dead_tail k.dead_head
      (buried t k).dead_tail t xs n out (ground arith) (ground (arith, clear))
      (λ full apart. ground arith) (λ c ne off. ground arith) q,
)
