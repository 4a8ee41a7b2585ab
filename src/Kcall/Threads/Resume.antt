-- ===== src/Kcall/Threads/Resume.antt =====
-- KCALL_RESUME of src/kernel/kcall.c on a thread that was paused while it waited for an event.
use pinion.Base.{
  ℕ, ◌≡◌, ◌≢◌, ◌<◌, arith, List, [], ◌∷◌, ◌++◌, ◌∉◌, and_then_assoc, Ensures, Ensures-bind, ==_ne,
  ◌>>◌,
}
use pinion.Vm.{null}
use pinion.Kernel.{Kernel, load, edit, ev_count, ts_pausedw, ts_running, ts_waiting}
use pinion.Thread.Links.{IsQueue-same}
use pinion.Thread.Sched.Fifo.{IsSched, next_of}
use pinion.Thread.Event.{event_wait}
use pinion.Thread.Event.Fifo.{
  Names, thread_get-entry, IsWaiting, Waits, evlink_of, event_wait-enqueue,
}
use pinion.Kcall.Threads.{set_eax, set_state, resume_target, kcall_resume}

resume_target-waits :
    (k : Kernel) (image target : ℕ)
    → target ≢ null
    → (k.mem target).state ≡ ts_pausedw
    → resume_target image target k
      ≡ (event_wait (k.mem target).id (k.mem target).event
            >> (set_state target ts_waiting >> set_eax image 0))
          k
unfolding resume_target load
resume_target-waits k image target n paused =
    rw (==_ne target null n, paused)
      (and_then_assoc (event_wait (k.mem target).id (k.mem target).event k) _ _)

kcall_resume-target :
    (k : Kernel) (image target : ℕ)
    → image ≢ null
    → Names k (k.mem image).ebx target
    → kcall_resume image k ≡ resume_target image target k
unfolding kcall_resume load
kcall_resume-target k image target n v =
    rw (==_ne image null n, thread_get-entry k (k.mem image).ebx target v)
      (rw (==_ne target null v.ne_null) (rw (==_ne target null v.ne_null)))

-- KCALL_RESUME of a thread that was paused while it waited for an event that is still not pending:
-- it waits for the event again, behind the threads `xs`, and the caller gets 0. But no thread is
-- active then, and the caller, which is left in state TS_RUNNING, is not in the scheduler's queue
-- either: nothing will ever schedule it.
pub kcall_resume-Lost :
    (k : Kernel) (image target : ℕ) (xs ys : List ℕ)
    → image ≢ null
    → image ≢ target
    → Names k (k.mem image).ebx target
    → Names k (k.mem target).id target
    → (k.mem target).state ≡ ts_pausedw
    → (k.mem target).event < ev_count
    → k.irqstate (k.mem target).event ≡ 0
    → target ∉ xs
    → IsWaiting k (k.mem target).event xs
    → IsSched k ys
    → image ∉ ys
    → (k.mem image).state ≡ ts_running
    → Ensures (kcall_resume image k) (λ _ l.
      IsWaiting l (k.mem target).event (xs ++ target ∷ [])
      × ((l.mem image).eax ≡ 0)
      × (l.active_thread ≡ null)
      × ((l.mem image).state ≡ ts_running)
      × IsSched l ys)
unfolding set_state set_eax edit
kcall_resume-Lost k image target xs ys n ne v self paused valid clear out q s off running =
    rw (kcall_resume-target k image target n v, resume_target-waits k image target v.ne_null paused)
      (Ensures-bind
        (λ r l. (r ≡ 0) × (l.active_thread ≡ null) × Waits k target (k.mem target).event xs ys l) _
        (event_wait (k.mem target).id (k.mem target).event k) _
        (event_wait-enqueue k (k.mem target).id (k.mem target).event target xs ys self valid clear
          out q s)
        (λ r l h.
          let running' : (l.mem image).state ≡ ts_running =
            ground (arith, h.2.kept image ne, running) in
          rw (==_ne target null v.ne_null) (
            rw (==_ne image null n) (
              IsQueue-same (evlink_of l) _ _ _ (xs ++ target ∷ []) (λ a i. ground arith)
                  h.2.waiting,
              ground arith,
              h.1,
              ground (arith, ne, running'),
              IsQueue-same (next_of l) _ l.sched_head l.sched_tail ys (λ a i. ground arith)
                  h.2.sched,
            ))))
