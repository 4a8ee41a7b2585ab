-- ===== src/Interrupt/Wakeups/Model.antt =====
-- The machine of Interrupt.Model with a queue of waiting threads for each event, for KCALL_WAIT and
-- KCALL_RESET of src/kernel/kcall.c and `event_send` of src/kernel/thread.c.
use pinion.Base.{
  ℕ, ◌≡◌, ◌≢◌, ◌⊎◌, List, [], ◌∷◌, ◌++◌, ◌∈◌, Bool, true, false, not, update, length, ◌<◌, pure,
  ltb, ◌>>=◌, ◌>>◌, ◌==◌, if◌then◌else◌,
}
use pinion.Kernel.{Kernel, KCmd, thread_count, ev_count, minus_one, ts_waiting}
use pinion.Thread.Event.{event_send}
use pinion.Thread.Event.Fifo.{IsWaiting}
use pinion.Kcall.Threads.{kcall_wait, kcall_reset}
use pinion.Interrupt.Model.{
  Event, perform_event, back, call_with, Model, run_next, requeued, model_event, Possible,
}

-- An event of the scheduling; or the running thread waits for the event of a number, such an event
-- comes from an interrupt or a virtual timer, or the running thread has dealt with it.
pub data Step : Type 0 where
  does : Event → Step
  wait signal reset : ℕ → Step

-- The step in the kernel, while thread `t` runs: the thread that runs then.
unfoldable pub perform_step : Step → ℕ → KCmd ℕ
perform_step (does e) t = perform_event e t
perform_step (wait n) t = call_with kcall_wait t n >> back
perform_step (signal n) t = event_send minus_one n >> back
perform_step (reset n) t = call_with kcall_reset t n >> back

unfoldable pub run_steps : List Step → ℕ → KCmd ℕ
run_steps [] t = pure t
run_steps (s ∷ ss) t = perform_step s t >>= run_steps ss

-- `waiters`: who waits for an event, the first to be woken first. `ids`: the ID of each thread.
pub record Machine : Type 0 where
  pub base : Model
  pub waiters : ℕ → List ℕ
  pub pending : ℕ → Bool
  pub ids : ℕ → ℕ

abbrev pub queue_of : Machine → List ℕ
queue_of m = m.base.queue

-- The running thread waits behind the others.
abbrev pub waited : ℕ → Machine → Machine
waited n m = record m {
  base = run_next m.base.queue m.base;
  waiters = update m.waiters n (m.waiters n ++ m.base.running ∷ []);
}

-- The first of those that wait is queued to run.
abbrev pub woken : ℕ → List ℕ → Machine → Machine
woken n [] m = m
woken n (x ∷ xs) m = record m {
  base = record (m.base) { queue = m.base.queue ++ x ∷ [] };
  waiters = update m.waiters n xs;
}

-- Only an interrupt's event, below 240, is ever pending.
abbrev pub set_pending : ℕ → Bool → Machine → Machine
set_pending n b m = record m { pending = if ltb n 240 then update m.pending n b else m.pending }

abbrev pub model_step : Step → Machine → Machine
model_step (does e) m = record m { base = model_event e m.base }
model_step (wait n) m =
    if m.pending n
    then record m { base = run_next (requeued m.base).queue (requeued m.base) }
    else waited n m
model_step (signal n) m = set_pending n true (woken n (m.waiters n) m)
model_step (reset n) m = set_pending n false m

abbrev pub model_steps : List Step → Machine → Machine
model_steps [] m = m
model_steps (s ∷ ss) m = model_steps ss (model_step s m)

-- A thread waits for a valid event, with an ID that names it, and while another one is queued unless
-- the event is pending.
abbrev pub StepPossible : Step → Machine → Type 0
StepPossible (does e) m = Possible e m.base
StepPossible (wait n) m =
    (n < ev_count)
    × (m.ids m.base.running < thread_count)
    × (m.base.table (m.ids m.base.running) ≡ m.base.running)
    × ((m.pending n ≡ true) ⊎ (length m.base.queue ≢ 0))
StepPossible (signal n) m = n < ev_count
StepPossible (reset n) m = Unit {0}

abbrev pub AllStepsPossible : List Step → Machine → Type 0
AllStepsPossible [] m = Unit {0}
AllStepsPossible (s ∷ ss) m = StepPossible s m × AllStepsPossible ss (model_step s m)

-- The event queues hold the threads that `m` says, all of them in TS_WAITING for that event, and the
-- pending events are `m`'s.
pub record Attended (m : Machine) (k : Kernel) : Type 0 where
  pub queues : (n : ℕ) → n < ev_count → IsWaiting k n (m.waiters n)
  pub members :
      (n p : ℕ)
      → n < ev_count
      → p ∈ m.waiters n
      → ((k.mem p).state ≡ ts_waiting) × ((k.mem p).event ≡ n)
  pub pending : (n : ℕ) → (k.irqstate n == 0) ≡ not (m.pending n)
  pub ids : (p : ℕ) → (k.mem p).id ≡ m.ids p
