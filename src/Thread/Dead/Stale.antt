-- ===== src/Thread/Dead/Stale.antt =====
-- `dead_wait` and `dead_push` of src/kernel/thread.c where a queue is empty.
use pinion.Base.{==_ne, ℕ, ◌≡◌, refl, ◌≢◌, arith, Ensures, ok, ◌>>◌}
use pinion.Vm.{null}
use pinion.Kernel.{Kernel, edit}
use pinion.Thread.Sched.Fifo.{schedule_push-pushed}
use pinion.Thread.Dead.Rendezvous.{dead_push-steps, notify-steps, reaped, told}
use pinion.Thread.Dead.{dead_push, reaper_enqueue, dead_wait}

abbrev alone : ℕ → Kernel → Kernel
alone r k = record k { reaper_head = r; reaper_tail = r }

dead_wait-alone :
    (k : Kernel) (r : ℕ)
    → k.dead_tail ≡ null
    → k.reaper_head ≡ null
    → dead_wait r k ≡ ok 0 (alone r k)
unfolding dead_wait reaper_enqueue
dead_wait-alone k r no_dead no_head = ground arith

-- A reaper that waits alone and whose link is left over from an earlier wait, followed by a death:
-- the reaper is told of it, and then the thread that the old link names stands in its place, as a
-- waiting reaper, though it does not wait.
pub dead_wait-stale_link :
    (k : Kernel) (r t : ℕ)
    → r ≢ null
    → t ≢ null
    → k.dead_tail ≡ null
    → k.reaper_tail ≡ null
    → k.reaper_head ≡ null
    → (k.mem r).next_dead ≢ null
    → Ensures
        ((dead_wait r >> dead_push t) k)
        (λ c l. (c ≡ 0) × ((l.mem r).eax ≡ (k.mem t).id) × (l.reaper_tail ≡ (k.mem r).next_dead))
unfolding edit
dead_wait-stale_link k r t n m no_dead no_tail no_head stale =
    let w = alone r k in
    let id = (k.mem t).id in
    rw
      (
        dead_wait-alone k r no_dead no_head,
        dead_push-steps w t m n,
        notify-steps r id (reaped w) n,
        schedule_push-pushed r (told r id (reaped w)) n,
        ==_ne r null n,
      )
      (refl, ground arith, refl)
