-- ===== src/Tests/Queues.antt =====
-- The scheduler's queue at a concrete state.
use pinion.Base.{ℕ, ◌≡◌, refl, arith, List, [], ◌∷◌, Ensures, ◌>>◌}
use pinion.Thread.Sched.{schedule_push, schedule_remv, remv_loop}
use pinion.Thread.Sched.Fifo.{IsSched, SameButSched}
use pinion.Thread.Sched.Refine.{Op, push, remv, run_ops, run_ops-queue_after_all}
use pinion.Tests.Sample.{sample_kernel, sample-IsSched}

abbrev waiting_list : List ℕ
waiting_list = 100 ∷ 200 ∷ []

-- The last thread leaves the queue and another enters: it is linked behind the first.
relinked :
    Ensures
      ((schedule_remv 200 >> schedule_push 500) sample_kernel)
      (λ r l. (l.sched_head ≡ 100) × (l.sched_tail ≡ 500) × ((l.mem 100).next ≡ 500))
unfolding schedule_push schedule_remv remv_loop
relinked = (refl, refl, refl)

-- 500 enters, 100 leaves, 300 is not there to leave, and 100 enters again.
abbrev requests : List Op
requests = push 500 ∷ remv 100 ∷ remv 300 ∷ push 100 ∷ []

run_ops-queue_after_all_example : Ensures (run_ops requests sample_kernel) (λ rs l.
    (rs ≡ 0 ∷ 0 ∷ 1 ∷ 0 ∷ []) × IsSched l (200 ∷ 500 ∷ 100 ∷ []) × SameButSched sample_kernel l)
run_ops-queue_after_all_example =
    run_ops-queue_after_all sample_kernel requests waiting_list
      (
        omega arith,
        (omega arith, refl),
        (omega arith, tt, (omega arith, tt, (omega arith, (omega arith, refl), omega arith))),
      )
      sample-IsSched
