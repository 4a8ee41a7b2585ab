-- ===== src/Tests/Scheduling.antt =====
-- Sequences of events, and calls that go wrong, at a concrete state.
use pinion.Base.{
  ℕ, ◌≡◌, ◌<◌, ◌∈◌, ◌/◌, refl, arith, inl, false, bit_and, List, [], ◌∷◌, Ensures, ◌==◌, update,
  update-all, update_ne,
}
use pinion.Kernel.{
  Kernel, no_handler, timer, kcalls, page_faults, ev_vtimer, ts_running, ts_waiting, ts_paused,
  ts_pausedw, te_state,
}
use pinion.Thread.Sched.Fifo.{IsSched}
use pinion.Thread.Event.Fifo.{Names, IsWaiting}
use pinion.Kcall.Threads.{kcall_resume}
use pinion.Kcall.Threads.Resume.{kcall_resume-Lost}
use pinion.Interrupt.{timer_bits, vtimer_loop}
use pinion.Interrupt.Vtimer.{vtimer_loop-due}
use pinion.Interrupt.Entry.Ticks.{Signalled}
use pinion.Interrupt.RoundRobin.{Turn, turns-Turn}
use pinion.Interrupt.Model.{Model, Sane}
use pinion.Interrupt.Wakeups.Model.{Machine, Attended}
use pinion.Interrupt.Entry.Model.{
  Trap, clock, irq, page_fault, request, rests, waits, resets, run_traps, Clocked, running_of,
  model_traps, Tracks, signals,
}
use pinion.Interrupt.Entry.Follows.{run_traps-Tracks}
use pinion.System.Calls.{t_kill}
use pinion.System.Calls.Kill.{t_kill-paused}
use pinion.Thread.Dead.Rendezvous.{IsDead}
use pinion.System.Threads.{reaper_round}
use pinion.System.Threads.Reaper.{reaper_round-Reaped}
use pinion.Tests.Sample.{sample_kernel, sample_mem, sample-IsSched, no_waiters}

abbrev sample_model : Model
sample_model = record {
  running = 500;
  queue = 100 ∷ 200 ∷ [];
  paused = λ p. (sample_mem p).state == ts_paused;
  table = sample_kernel.thread_table;
}

sample-Sane : Sane sample_model sample_kernel
sample-Sane = record {
  waiting = record {
    table = refl;
    sched = sample-IsSched;
    queued = λ p. ground arith;
    paused = λ p. refl;
  };
  active = refl;
  ne_null = omega arith;
  running = λ p. ground arith;
}

-- 300 was paused while it waited for event 9; 500 has its ID in `ebx`.
abbrev paused_kernel : Kernel
paused_kernel = record sample_kernel {
  mem =
      update (update sample_mem 300 (record (sample_mem 300) { state = ts_pausedw; event = 9 })) 500
        (record (sample_mem 500) { ebx = 3 });
}

paused-Names : Names paused_kernel 3 300
paused-Names = record { valid = omega arith; entry = refl; ne_null = omega arith }

paused-IsWaiting : IsWaiting paused_kernel 9 []
paused-IsWaiting = record { chain = refl; last = refl; distinct = tt }

paused-IsSched : IsSched paused_kernel (100 ∷ 200 ∷ [])
paused-IsSched = record {
  chain = (refl, omega arith, (refl, omega arith, refl));
  last = refl;
  distinct = (refl, (refl, tt));
}

kcall_resume-Lost_example : Ensures (kcall_resume 500 paused_kernel) (λ _ l.
    IsWaiting l 9 (300 ∷ [])
    × ((l.mem 500).eax ≡ 0)
    × (l.active_thread ≡ 0)
    × ((l.mem 500).state ≡ ts_running)
    × IsSched l (100 ∷ 200 ∷ []))
kcall_resume-Lost_example =
    kcall_resume-Lost paused_kernel 500 300 [] (100 ∷ 200 ∷ []) (omega arith) (omega arith)
      paused-Names paused-Names refl (omega arith) refl refl paused-IsWaiting paused-IsSched refl
      refl

dead-Names : Names sample_kernel 6 600
dead-Names = record { valid = omega arith; entry = refl; ne_null = omega arith }

t_kill-paused_example :
    Ensures
      (t_kill 500 0x9000 6 1 sample_kernel)
      (λ r l. (r ≡ te_state) × (l.mem 600 ≡ sample_mem 600) × (l.info ≡ sample_kernel.info))
t_kill-paused_example =
    t_kill-paused sample_kernel 500 0x9000 6 600 1 (omega arith) refl dead-Names (omega arith)
      (inl refl)

sample-IsDead : IsDead sample_kernel (600 ∷ 700 ∷ [])
sample-IsDead = record {
  chain = (refl, omega arith, (refl, omega arith, refl));
  last = refl;
  distinct = (refl, (refl, tt));
}

reaper_round-Reaped_example : Ensures (reaper_round 500 sample_kernel) (λ r l.
    (r ≡ 0)
    × IsDead l (700 ∷ [])
    × ((i : ℕ) → l.thread_table i ≡ update sample_kernel.thread_table 6 0 i))
reaper_round-Reaped_example =
    reaper_round-Reaped sample_kernel 500 600 (700 ∷ []) (omega arith) refl (omega arith)
      sample-IsDead dead-Names refl

-- 300 and 400 wait for event 7.
abbrev sample_machine : Machine
sample_machine = record {
  base = sample_model;
  waiters = update (λ _. []) 7 (300 ∷ 400 ∷ []);
  pending = λ _. false;
  ids = λ p. p / 100;
}

sample-Attended : Attended sample_machine sample_kernel
sample-Attended = record {
  queues =
      update-all (λ n xs. n < 256 → IsWaiting sample_kernel n xs) (λ _. []) 7 (300 ∷ 400 ∷ [])
        (λ _. record {
          chain = (refl, omega arith, (refl, omega arith, refl));
          last = refl;
          distinct = (refl, (refl, tt));
        })
        (λ n ne _.
          rw (update_ne (λ _. no_waiters) 7 n (record { front_thread = 300; back_thread = 400 }) ne)
            (record { chain = refl; last = refl; distinct = tt }));
  members =
      update-all
        (λ n xs.
          (p : ℕ)
          → n < 256
          → p ∈ xs
          → ((sample_mem p).state ≡ ts_waiting) × ((sample_mem p).event ≡ n))
        (λ _. []) 7 (300 ∷ 400 ∷ []) (λ p _ i. ground (arith, i)) (λ n ne p _ i. ground (arith, i));
  pending = λ n. refl;
  ids = λ p. ground arith;
}

-- Tick 8 is unit 128: the timers of at most 128 units are due.
vtimer_loop-due_example : Ensures (vtimer_loop 16 (timer_bits 8 64) 0 sample_kernel) (λ _.
    Signalled sample_kernel (
      signals
        (ev_vtimer 8
          ∷ ev_vtimer 9
          ∷ ev_vtimer 10
          ∷ ev_vtimer 11
          ∷ ev_vtimer 12
          ∷ ev_vtimer 13
          ∷ ev_vtimer 14
          ∷ ev_vtimer 15
          ∷ [])
        sample_machine))
vtimer_loop-due_example =
    vtimer_loop-due 8 sample_machine sample_kernel (omega arith) (omega arith) sample-Sane
      sample-Attended

-- The machine with the timer at 1024 ticks a second and the handlers of `init`.
abbrev clocked_kernel : Kernel
clocked_kernel = record sample_kernel {
  int_handlers = update (update (update (λ _. no_handler) 32 timer) 0x81 kcalls) 0x0E page_faults;
}

abbrev sample_clocked : Clocked
sample_clocked = record {
  machine = sample_machine;
  ticks = 0;
  freq = 1024;
  user = λ _. false;
  rings = λ p. bit_and (sample_mem p).cs 0x3;
  faulty = 800 ∷ 900 ∷ [];
}

sample-Tracks : Tracks sample_clocked 500 clocked_kernel
sample-Tracks = record {
  running = refl;
  sane = record {
    waiting = record {
      table = refl;
      sched = sample-IsSched;
      queued = sample-Sane.waiting.queued;
      paused = sample-Sane.waiting.paused;
    };
    active = refl;
    ne_null = sample-Sane.ne_null;
    running = sample-Sane.running;
  };
  attended = record {
    queues = sample-Attended.queues;
    members = sample-Attended.members;
    pending = sample-Attended.pending;
    ids = sample-Attended.ids;
  };
  clockwork = record {
    ticks = refl;
    freq = refl;
    user = λ p. ground arith;
    rings = λ p. refl;
    faulty = record {
      chain = (refl, omega arith, (refl, omega arith, refl));
      last = refl;
      distinct = (refl, (refl, tt));
    };
    clear = λ p off n. ground (arith, off);
    no_debugger = refl;
    faults_of = refl;
    timer_of = refl;
    calls_of = refl;
    irqs_of = λ n low high. ground (arith, low, high);
  };
}

-- IRQ 7 queues 300. 500 faults, and 100 runs, which does not wait for event 7, since it is pending, but
-- queues behind 300; 200 runs. A tick, and 300 runs, resets the event and rests: 100 runs.
abbrev traps : List Trap
traps =
    irq 7 ∷ page_fault 0x1234 ∷ request (waits 7) ∷ clock ∷ request (resets 7) ∷ request rests ∷ []

run_traps-Tracks_example :
    Ensures (run_traps traps 500 clocked_kernel) (Tracks (model_traps traps sample_clocked))
unfolding timer_bits
run_traps-Tracks_example =
    run_traps-Tracks traps sample_clocked clocked_kernel
      (
        (omega arith, omega arith),
        (
          (omega arith, refl, omega arith),
          (
            ((omega arith, omega arith, refl, inl refl), refl),
            (omega arith, ((tt, refl), ((omega arith, refl), tt))),
          ),
        ),
      )
      sample-Tracks

traps-run : running_of (model_traps traps sample_clocked) ≡ 100
unfolding timer_bits
traps-run = refl

traps-fault : (model_traps traps sample_clocked).faulty ≡ 800 ∷ 900 ∷ 500 ∷ []
unfolding timer_bits
traps-fault = refl

turns-Turn_example :
    Ensures (run_traps (clock ∷ clock ∷ []) 500 clocked_kernel) (Turn 200 [] (500 ∷ 100 ∷ []))
turns-Turn_example =
    turns-Turn sample_clocked clocked_kernel 200 (100 ∷ []) [] (omega arith) refl sample-Tracks
