-- ===== src/Interrupt/Model.antt =====
-- What the scheduling of src/kernel/interrupt.c and src/kernel/kcall.c is meant to do, as a machine
-- without memory: the running thread, the queue, and which threads are paused.
use pinion.Base.{
  ℕ, ◌≡◌, ◌≢◌, List, [], ◌∷◌, ◌++◌, ◌∈◌, Bool, true, false, erase, has, update, length, ◌<◌, ◌≤◌,
  pure, ◌>>=◌, ◌>>◌, ◌==◌, if◌then◌else◌,
}
use pinion.Vm.{null}
use pinion.Kernel.{Kernel, KCmd, edit, thread_count, minus_one, ts_queued, ts_running, ts_paused}
use pinion.Thread.Table.{thread_get_active}
use pinion.Thread.Sched.Fifo.{IsSched}
use pinion.Kcall.Threads.{kcall_yield, kcall_pause, kcall_resume}
use pinion.Interrupt.{preempt, switch}

-- What the running thread or the timer does. `pause` and `resume` carry another thread's ID.
pub data Event : Type 0 where
  tick yield rest : Event
  pause resume : ℕ → Event

-- The end of `int_handler`.
abbrev pub back : KCmd ℕ
back = thread_get_active >>= λ active. if active == null then switch else pure active

-- A kernel call of thread `t` with `arg` in `ebx`.
abbrev pub call_with : (ℕ → KCmd (Unit {0})) → ℕ → ℕ → KCmd (Unit {0})
call_with call t arg = edit t (λ s. record s { ebx = arg }) >> call t

-- The event in the kernel, while thread `t` runs: the thread that runs then.
unfoldable pub perform_event : Event → ℕ → KCmd ℕ
perform_event tick t = preempt t >> back
perform_event yield t = kcall_yield t >> back
perform_event rest t = call_with kcall_pause t minus_one >> back
perform_event (pause id) t = call_with kcall_pause t id >> back
perform_event (resume id) t = call_with kcall_resume t id >> back

unfoldable pub run_events : List Event → ℕ → KCmd ℕ
run_events [] t = pure t
run_events (e ∷ es) t = perform_event e t >>= run_events es

-- The same without memory.
pub record Model : Type 0 where
  pub running : ℕ
  pub queue : List ℕ
  pub paused : ℕ → Bool
  pub table : ℕ → ℕ

-- The first of a queue runs; where there is none nothing changes.
abbrev pub run_next : List ℕ → Model → Model
run_next [] m = m
run_next (x ∷ xs) m = record m { running = x; queue = xs }

-- The running thread queues behind the others.
abbrev pub requeued : Model → Model
requeued m = record m { queue = m.queue ++ m.running ∷ [] }

abbrev pub model_event : Event → Model → Model
model_event tick m = run_next (requeued m).queue (requeued m)
model_event yield m = run_next (requeued m).queue (requeued m)
model_event rest m = run_next m.queue (record m { paused = update m.paused m.running true })
model_event (pause id) m = record m {
  queue = erase (m.table id) m.queue;
  paused = update m.paused (m.table id) true;
}
model_event (resume id) m = record m {
  queue = m.queue ++ m.table id ∷ [];
  paused = update m.paused (m.table id) false;
}

abbrev pub model_events : List Event → Model → Model
model_events [] m = m
model_events (e ∷ es) m = model_events es (model_event e m)

-- The running thread rests only while another one is queued; a queued thread is paused, and a paused
-- one resumed.
abbrev pub Possible : Event → Model → Type 0
Possible tick m = Unit {0}
Possible yield m = Unit {0}
Possible rest m = (length m.queue ≢ 0)
Possible (pause id) m =
    (id < thread_count)
    × (m.table id ≢ null)
    × (m.table id ∈ m.queue)
    × (length m.queue ≤ thread_count)
Possible (resume id) m = (id < thread_count) × (m.table id ≢ null) × (m.paused (m.table id) ≡ true)

abbrev pub AllPossible : List Event → Model → Type 0
AllPossible [] m = Unit {0}
AllPossible (e ∷ es) m = Possible e m × AllPossible es (model_event e m)

-- The states of all threads: just the queued threads are in TS_QUEUED, and just `m`'s paused ones in
-- TS_PAUSED.
pub record Waiting (m : Model) (k : Kernel) : Type 0 where
  pub table : k.thread_table ≡ m.table
  pub sched : IsSched k m.queue
  pub queued : (p : ℕ) → ((k.mem p).state == ts_queued) ≡ has p m.queue
  pub paused : (p : ℕ) → ((k.mem p).state == ts_paused) ≡ m.paused p

-- The kernel is in the state that `m` describes: besides, just the active thread is in TS_RUNNING.
pub record Sane (m : Model) (k : Kernel) : Type 0 where
  pub waiting : Waiting m k
  pub active : k.active_thread ≡ m.running
  pub ne_null : m.running ≢ null
  pub running : (p : ℕ) → ((k.mem p).state == ts_running) ≡ (p == m.running)

-- No thread runs.
pub record Idle (m : Model) (k : Kernel) : Type 0 where
  pub waiting : Waiting m k
  pub active : k.active_thread ≡ null
  pub running : (p : ℕ) → ((k.mem p).state == ts_running) ≡ false
