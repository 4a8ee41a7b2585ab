-- ===== src/Tests/Events.antt =====
-- The event queues and the fault queue at a concrete state.
use pinion.Base.{◌≡◌, refl, arith, [], ◌∷◌, Ensures, ◌>>◌}
use pinion.Vm.{null}
use pinion.Kernel.{ts_queued}
use pinion.Thread.Sched.Fifo.{IsSched}
use pinion.Thread.Event.{event_wait, event_remv, event_send}
use pinion.Thread.Event.Fifo.{IsWaiting, Names, Waits, event_wait-enqueue}
use pinion.Thread.Event.Latch.{Woken, irqstate_after, event_send-wake, event_send-event_wait}
use pinion.Thread.Event.Unlink.{event_remv-wrong_link}
use pinion.Thread.Fault.{fault_pull}
use pinion.Thread.Fault.Pull.{IsFaulty, fault_pull-wrong_link}
use pinion.Tests.Sample.{sample_kernel, sample-IsSched}

sample-IsWaiting : IsWaiting sample_kernel 7 (300 ∷ 400 ∷ [])
sample-IsWaiting = record {
  chain = (refl, omega arith, (refl, omega arith, refl));
  last = refl;
  distinct = (refl, (refl, tt));
}

nobody-IsWaiting : IsWaiting sample_kernel 9 []
nobody-IsWaiting = record { chain = refl; last = refl; distinct = tt }

running-Names : Names sample_kernel 5 500
running-Names = record { valid = omega arith; entry = refl; ne_null = omega arith }

waiting-Names : Names sample_kernel 3 300
waiting-Names = record { valid = omega arith; entry = refl; ne_null = omega arith }

sample-IsFaulty : IsFaulty sample_kernel (800 ∷ 900 ∷ [])
sample-IsFaulty = record {
  chain = (refl, omega arith, (refl, omega arith, refl));
  last = refl;
  distinct = (refl, (refl, tt));
}

event_wait-enqueue_example : Ensures (event_wait 5 7 sample_kernel) (λ r l.
    (r ≡ 0)
    × (l.active_thread ≡ null)
    × Waits sample_kernel 500 7 (300 ∷ 400 ∷ []) (100 ∷ 200 ∷ []) l)
event_wait-enqueue_example =
    event_wait-enqueue sample_kernel 5 7 500 (300 ∷ 400 ∷ []) (100 ∷ 200 ∷ []) running-Names
      (omega arith) refl refl sample-IsWaiting sample-IsSched

event_send-wake_example : Ensures (event_send 0 7 sample_kernel) (λ r l.
    (r ≡ 0)
    × Woken sample_kernel 300 7 (400 ∷ []) (100 ∷ 200 ∷ []) l
    × (l.irqstate ≡ irqstate_after 7 sample_kernel.irqstate))
event_send-wake_example =
    event_send-wake sample_kernel 0 7 300 (400 ∷ []) (100 ∷ 200 ∷ []) (omega arith) (omega arith)
      refl sample-IsWaiting sample-IsSched

event_send-event_wait_example : Ensures ((event_send 0 9 >> event_wait 5 9) sample_kernel) (λ r l.
    (r ≡ 0)
    × IsSched l (100 ∷ 200 ∷ 500 ∷ [])
    × ((l.mem 500).state ≡ ts_queued)
    × (l.evqueue ≡ sample_kernel.evqueue))
event_send-event_wait_example =
    event_send-event_wait sample_kernel 0 5 9 500 (100 ∷ 200 ∷ []) (omega arith) running-Names refl
      nobody-IsWaiting sample-IsSched

event_remv-wrong_link_example :
    Ensures
      (event_remv 3 7 sample_kernel)
      (λ r l. (r ≡ 0) × ((l.evqueue 7).front_thread ≡ 0) × (¬ IsWaiting l 7 (400 ∷ [])))
event_remv-wrong_link_example =
    event_remv-wrong_link sample_kernel 3 7 300 400 [] waiting-Names (omega arith) sample-IsWaiting
      (omega arith)

fault_pull-wrong_link_example :
    Ensures (fault_pull sample_kernel) (λ r l. (r ≡ 800) × (¬ IsFaulty l (900 ∷ [])))
fault_pull-wrong_link_example =
    fault_pull-wrong_link sample_kernel 800 900 [] sample-IsFaulty (omega arith)
