-- ===== src/Thread/Sched/Refine.antt =====
-- Sequences of scheduler operations against a list of threads.
use pinion.Base.{
  ℕ, ◌≤◌, ◌≡◌, refl, ap, ◌∙◌, ◌≢◌, inl, inr, List, [], ◌∷◌, ◌++◌, arith, pure, ◌>>=◌, Ensures,
  Ensures-bind, Ensures-mono, if◌then◌else◌, Bool-cases, ◌∉◌, has, erase, length,
}
use pinion.Vm.{null}
use pinion.Kernel.{Thread, Kernel, KCmd, thread_count}
use pinion.Thread.Sched.{schedule_push, schedule_remv}
use pinion.Thread.Sched.Fifo.{IsSched, SameButSched, schedule_push-enqueue}
use pinion.Thread.Sched.Remove.{schedule_remv-erase, schedule_remv-missing}

pub data Op : Type 0 where
  push remv : ℕ → Op

-- The operation in the kernel, and what it returns.
unfoldable pub perform_op : Op → KCmd ℕ
perform_op (push t) = schedule_push t
perform_op (remv t) = schedule_remv t

unfoldable pub run_ops : List Op → KCmd (List ℕ)
run_ops [] = pure []
run_ops (op ∷ ops) = do r ← perform_op op; rs ← run_ops ops; pure (r ∷ rs)

-- The same on a list.
abbrev pub queue_after : Op → List ℕ → List ℕ
queue_after (push t) xs = xs ++ t ∷ []
queue_after (remv t) xs = erase t xs

abbrev pub code_of : Op → List ℕ → ℕ
code_of (push t) xs = 0
code_of (remv t) xs = if has t xs then 0 else 1

abbrev pub queue_after_all : List Op → List ℕ → List ℕ
queue_after_all [] xs = xs
queue_after_all (op ∷ ops) xs = queue_after_all ops (queue_after op xs)

abbrev pub codes_of : List Op → List ℕ → List ℕ
codes_of [] xs = []
codes_of (op ∷ ops) xs = code_of op xs ∷ codes_of ops (queue_after op xs)

-- A thread is pushed only while it is not in the queue, which never holds more than THREAD_COUNT.
abbrev pub Allowed : Op → List ℕ → Type 0
Allowed (push t) xs = (t ≢ null) × (t ∉ xs)
Allowed (remv t) xs = Unit {0}

abbrev pub AllAllowed : List Op → List ℕ → Type 0
AllAllowed [] xs = length xs ≤ thread_count
AllAllowed (op ∷ ops) xs =
    (length xs ≤ thread_count) × Allowed op xs × AllAllowed ops (queue_after op xs)

erase-missing : (t : ℕ) (xs : List ℕ) → t ∉ xs → erase t xs ≡ xs
erase-missing t [] out = refl
erase-missing t (x ∷ xs) out = ground (arith, erase-missing t xs)

SameButSched-trans : (k l m : Kernel) → SameButSched k l → SameButSched l m → SameButSched k m
SameButSched-trans k l m f g = (
  g.0
      ∙ ap
          (λ (x : Kernel). record x {
            mem = m.mem;
            sched_head = m.sched_head;
            sched_tail = m.sched_tail;
          })
          f.0,
  λ p. g.1 p ∙ ap (λ (x : Thread). record x { next = (m.mem p).next }) (f.1 p),
)

-- `r` and `l` are what `op` returns and leaves of `k` with the queue `xs`.
abbrev pub Refines : Kernel → Op → List ℕ → ℕ → Kernel → Type 0
Refines k op xs r l = (r ≡ code_of op xs) × IsSched l (queue_after op xs) × SameButSched k l

perform_op-Refines :
    (k : Kernel) (op : Op) (xs : List ℕ)
    → length xs ≤ thread_count
    → Allowed op xs
    → IsSched k xs
    → Ensures (perform_op op k) (Refines k op xs)
unfolding perform_op
perform_op-Refines k (push t) xs few a q = schedule_push-enqueue t k xs a.0 a.1 q
perform_op-Refines k (remv t) xs few a q = elim (Bool-cases (has t xs)) [
  | inl i ↦
      Ensures-mono _ (Refines k (remv t) xs) (schedule_remv t k)
        (schedule_remv-erase t k xs few i q) (λ r l h. (h.0 ∙ ground (arith, i), h.1, h.2))
  | inr out ↦
      rw (schedule_remv-missing t k xs few out q, out, erase-missing t xs out)
        (refl, q, (refl, λ p. refl))
]

-- Any sequence of `schedule_push` and `schedule_remv`, where a thread is pushed only while it is not
-- in the queue and the queue never holds more than THREAD_COUNT threads, returns the codes and
-- leaves the queue that the same operations on a list do, and changes nothing else.
pub run_ops-queue_after_all :
    (k : Kernel) (ops : List Op) (xs : List ℕ)
    → AllAllowed ops xs
    → IsSched k xs
    → Ensures
        (run_ops ops k)
        (λ rs l. (rs ≡ codes_of ops xs) × IsSched l (queue_after_all ops xs) × SameButSched k l)
unfolding run_ops
run_ops-queue_after_all k [] xs a q = (refl, q, (refl, λ p. refl))
run_ops-queue_after_all k (op ∷ ops) xs a q =
    Ensures-bind (Refines k op xs) _ (perform_op op k) _ (perform_op-Refines k op xs a.0 a.1 q)
      (λ r l h.
        Ensures-bind
          (λ rs m.
            (rs ≡ codes_of ops (queue_after op xs))
            × IsSched m (queue_after_all ops (queue_after op xs))
            × SameButSched l m)
          _ (run_ops ops l) _ (run_ops-queue_after_all l ops (queue_after op xs) a.2 h.1)
          (λ rs m g. (
            ap (λ c. c ∷ rs) h.0 ∙ ap (λ cs. code_of op xs ∷ cs) g.0,
            g.1,
            SameButSched-trans k l m h.2 g.2,
          )))
