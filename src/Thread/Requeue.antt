-- ===== src/Thread/Requeue.antt =====
-- A thread gives up the processor and queues to run again: the three lines that the calls of
-- src/kernel/thread.c, src/kernel/kcall.c and src/kernel/interrupt.c have in common.
use pinion.Base.{
  ℕ, ◌≡◌, ◌≢◌, List, [], ◌∷◌, ◌++◌, ◌∉◌, ap, arith, ==_ne, ◌>>◌, Ensures, Ensures-bind,
}
use pinion.Vm.{null}
use pinion.Kernel.{Kernel, KCmd, edit, ts_queued}
use pinion.Thread.Links.{IsQueue-same}
use pinion.Thread.Table.{thread_save}
use pinion.Thread.Table.Load.{SameButCpu, thread_save-active}
use pinion.Thread.Sched.{schedule_push}
use pinion.Thread.Sched.Fifo.{IsSched, next_of, pushed, schedule_push-pushed, pushed-IsSched}

unfoldable pub requeue : ℕ → KCmd (Unit {0})
requeue thread = do
  thread_save thread
  schedule_push thread
  edit thread (λ t. record t { state = ts_queued })

-- `t` is queued at the end of the scheduler's queue, no thread is active, and the event queues, the
-- table of threads and the states of the other threads are as in `k`.
pub record Requeued (k : Kernel) (t : ℕ) (xs : List ℕ) (l : Kernel) : Type 0 where
  pub active : l.active_thread ≡ null
  pub state : (l.mem t).state ≡ ts_queued
  pub sched : IsSched l (xs ++ t ∷ [])
  pub events : l.evqueue ≡ k.evqueue
  pub table : l.thread_table ≡ k.thread_table
  pub kept : (p : ℕ) → p ≢ t → (l.mem p).state ≡ (k.mem p).state

pub SameButCpu-IsSched : (k l : Kernel) (xs : List ℕ) → SameButCpu k l → IsSched k xs → IsSched l xs
SameButCpu-IsSched k l xs same q =
    let em : l.mem ≡ k.mem = ap (λ (m : Kernel). m.mem) same in
    let eh : l.sched_head ≡ k.sched_head = ap (λ (m : Kernel). m.sched_head) same in
    let et : l.sched_tail ≡ k.sched_tail = ap (λ (m : Kernel). m.sched_tail) same in
    rw (em, eh, et) q

-- `requeue` of a thread that is not in the scheduler's queue puts it at the end, in state
-- TS_QUEUED; no thread is active afterwards, and the event queues, the table of threads and the
-- other threads' states do not change.
pub requeue-Requeued :
    (k : Kernel) (t : ℕ) (xs : List ℕ)
    → t ≢ null
    → t ∉ xs
    → IsSched k xs
    → Ensures (requeue t k) (λ _. Requeued k t xs)
unfolding requeue edit
requeue-Requeued k t xs n out q =
    Ensures-bind (λ r l. (l.active_thread ≡ null) × SameButCpu k l) (λ _. Requeued k t xs)
      (thread_save t k) _ (thread_save-active t k)
      (λ r l h.
        let q' : IsSched (pushed t l) (xs ++ t ∷ []) =
          pushed-IsSched t l xs n out (SameButCpu-IsSched k l xs h.1 q) in
        rw (schedule_push-pushed t l n, ==_ne t null n)
          (record {
            active = h.0;
            state = ground arith;
            sched =
                IsQueue-same (next_of (pushed t l)) _ (pushed t l).sched_head t (xs ++ t ∷ [])
                  (λ a i. ground arith) q';
            events = ap (λ (m : Kernel). m.evqueue) h.1;
            table = ap (λ (m : Kernel). m.thread_table) h.1;
            kept = λ p ne.
                let same : l.mem ≡ k.mem = ap (λ (m : Kernel). m.mem) h.1 in rw same (ground arith);
          }))
