-- ===== src/Thread/Event/Unlink.antt =====
-- `event_remv` of src/kernel/thread.c against the list of waiting threads.
use pinion.Base.{
  sym, ◌∙◌, Ensures-mono, false, ℕ, ◌<◌, ◌≡◌, ◌≢◌, List, ◌∷◌, arith, Ensures, ==_ne, ==_refl, leb,
}
use pinion.Vm.{null}
use pinion.Kernel.{Kernel, load, ev_count}
use pinion.Thread.Event.{event_remv, event_remv_front}
use pinion.Thread.Event.Fifo.{IsWaiting, Names, thread_get-entry}

remv_front-next :
    (k : Kernel) (t event : ℕ)
    → t ≢ null
    → Ensures
        (event_remv_front t event k)
        (λ r l. (r ≡ 0) × ((l.evqueue event).front_thread ≡ (k.mem t).next))
unfolding event_remv_front load
remv_front-next k t event n = ground arith

-- `event_remv` of the first of several threads that wait for an event returns 0, but the front of
-- the queue becomes the thread that the removed one's scheduler link names. If that is not the
-- second waiting thread, the event's queue no longer holds the threads that still wait.
pub event_remv-wrong_link :
    (k : Kernel) (id event t u : ℕ) (ts : List ℕ)
    → Names k id t
    → event < ev_count
    → IsWaiting k event (t ∷ u ∷ ts)
    → (k.mem t).next ≢ u
    → Ensures (event_remv id event k) (λ r l.
      (r ≡ 0) × ((l.evqueue event).front_thread ≡ (k.mem t).next) × (¬ IsWaiting l event (u ∷ ts)))
unfolding event_remv
event_remv-wrong_link k id event t u ts v valid q off =
    let small : leb ev_count event ≡ false = ground arith in
    let front : (k.evqueue event).front_thread ≡ t = q.chain.0 in
    let n : t ≢ null = v.ne_null in
    rw (thread_get-entry k id t v, ==_ne t null n, small, front, ==_refl t, ==_ne t null n)
      (Ensures-mono (λ r l. (r ≡ 0) × ((l.evqueue event).front_thread ≡ (k.mem t).next)) _
        (event_remv_front t event k) (remv_front-next k t event n)
        (λ r l h. (h.0, h.1, λ w. off (sym h.1 ∙ w.chain.0))))
