-- ===== src/Tests/Reapers.antt =====
-- The dead queue and the reapers at concrete states.
use pinion.Base.{◌≡◌, refl, arith, [], ◌∷◌, Ensures, ◌>>◌}
use pinion.Kernel.{Kernel, ts_queued}
use pinion.Thread.Sched.Fifo.{IsSched}
use pinion.Thread.Dead.{dead_push, dead_wait}
use pinion.Thread.Dead.Rendezvous.{IsDead, IsReaping, Handed, dead_wait-oldest, dead_push-reaper}
use pinion.Thread.Dead.Stale.{dead_wait-stale_link}
use pinion.Tests.Sample.{sample_kernel, sample-IsSched}

sample-IsDead : IsDead sample_kernel (600 ∷ 700 ∷ [])
sample-IsDead = record {
  chain = (refl, omega arith, (refl, omega arith, refl));
  last = refl;
  distinct = (refl, (refl, tt));
}

-- Nobody is dead, and 600 and 700 wait as reapers.
abbrev reaping : Kernel
reaping = record sample_kernel {
  dead_tail = 0;
  dead_head = 0;
  reaper_tail = 600;
  reaper_head = 700;
}

reaping-IsReaping : IsReaping reaping (600 ∷ 700 ∷ [])
reaping-IsReaping = record {
  chain = (refl, omega arith, (refl, omega arith, refl));
  last = refl;
  distinct = (refl, (refl, tt));
}

reaping-IsDead : IsDead reaping []
reaping-IsDead = record { chain = refl; last = refl; distinct = tt }

-- Nobody is dead and nobody waits, but 600 has waited before.
abbrev stale : Kernel
stale = record sample_kernel { dead_tail = 0; dead_head = 0 }

dead_wait-oldest_example : Ensures (dead_wait 500 sample_kernel) (λ r l.
    (r ≡ 0)
    × IsDead l (700 ∷ [])
    × ((l.mem 500).eax ≡ 6)
    × ((l.mem 500).state ≡ ts_queued)
    × IsSched l (100 ∷ 200 ∷ 500 ∷ []))
dead_wait-oldest_example =
    dead_wait-oldest sample_kernel 500 600 (700 ∷ []) (100 ∷ 200 ∷ []) (omega arith) refl
      sample-IsDead sample-IsSched

dead_push-reaper_example :
    Ensures (dead_push 500 reaping) (Handed reaping 500 600 (700 ∷ []) [] (100 ∷ 200 ∷ []))
dead_push-reaper_example =
    dead_push-reaper reaping 500 600 (700 ∷ []) [] (100 ∷ 200 ∷ []) (omega arith) refl
      reaping-IsReaping reaping-IsDead sample-IsSched

dead_wait-stale_link_example :
    Ensures
      ((dead_wait 600 >> dead_push 500) stale)
      (λ c l. (c ≡ 0) × ((l.mem 600).eax ≡ 5) × (l.reaper_tail ≡ 700))
dead_wait-stale_link_example =
    dead_wait-stale_link stale 600 500 (omega arith) (omega arith) refl refl refl (omega arith)
