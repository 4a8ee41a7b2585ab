-- ===== src/Interrupt/Entry/Clock.antt =====
-- A tick of the timer through `int_handler` of src/kernel/interrupt.c.
use pinion.Base.{
  ℕ, ◌+◌, ◌%◌, ◌≡◌, refl, ap, ◌∙◌, subst, Ensures, Ensures-bind, Ensures-mono, ==_ne, ◌>>◌,
}
use pinion.Vm.{null, u32}
use pinion.Kernel.{Kernel, edit}
use pinion.Interrupt.{int_handler, preempt, vtimer_loop, timer_bits, irq_int_base}
use pinion.Interrupt.Model.{Model, back, tick, perform_event, Sane}
use pinion.Interrupt.Wakeups.Model.{Machine, Attended, does, perform_step, model_step}
use pinion.Interrupt.Wakeups.Calls.{FollowsFrom}
use pinion.Interrupt.Wakeups.Follows.{perform_step-FollowsAll}
use pinion.Interrupt.Entry.Model.{
  clock, Clocked, running_of, next_tick, fired, signals, model_trap, Clockwork, Tracks,
}
use pinion.Interrupt.Entry.Kept.{
  Neutral, edited, edited-Sane, edited-Attended, edited-Clockwork, SameClock-Clockwork,
  FollowsFrom-Tracks,
}
use pinion.Interrupt.Entry.Ticks.{Signalled, signals-running, vtimer_loop-signals}
use pinion.Interrupt.Entry.Handler.{ticked, count_tick, int_handler-clock}

ticked-Sane : (m : Model) (k : Kernel) → Sane m k → Sane m (ticked k)
ticked-Sane m k s = record {
  waiting = record {
    table = s.waiting.table;
    sched = s.waiting.sched;
    queued = s.waiting.queued;
    paused = s.waiting.paused;
  };
  active = s.active;
  ne_null = s.ne_null;
  running = s.running;
}

ticked-Attended : (m : Machine) (k : Kernel) → Attended m k → Attended m (ticked k)
ticked-Attended m k a = record {
  queues = a.queues;
  members = a.members;
  pending = a.pending;
  ids = a.ids;
}

ticked-Clockwork :
    (c : Clocked) (k : Kernel)
    → Clockwork c k
    → Clockwork (record c { ticks = next_tick c }) (ticked k)
ticked-Clockwork c k w = record {
  ticks = ap (λ (n : ℕ). (n + 1) % u32) w.ticks;
  freq = w.freq;
  user = w.user;
  rings = w.rings;
  faulty = w.faulty;
  clear = w.clear;
  no_debugger = w.no_debugger;
  faults_of = w.faults_of;
  timer_of = w.timer_of;
  calls_of = w.calls_of;
  irqs_of = w.irqs_of;
}

count_tick-Neutral : Neutral count_tick
count_tick-Neutral = record {
  state = λ s. refl;
  next = λ s. refl;
  link = λ s. refl;
  event = λ s. refl;
  id = λ s. refl;
  flags = λ s. refl;
  cs = λ s. refl;
  fault_link = λ s. refl;
}

-- The tick after the virtual timers.
tick-Tracks :
    (c : Clocked) (k : Kernel)
    → Sane c.machine.base k
    → Attended c.machine k
    → Clockwork c k
    → Ensures
        ((edit (running_of c) count_tick >> (preempt (running_of c) >> back)) k)
        (Tracks (record c { machine = model_step (does tick) c.machine }))
unfolding edit perform_step perform_event
tick-Tracks c k s a w =
    let t = running_of c in
    let k' = edited count_tick t k in
    let m = c.machine in
    rw (==_ne t null s.ne_null) (
      Ensures-mono (FollowsFrom k' (model_step (does tick) m)) _ ((preempt t >> back) k')
        (perform_step-FollowsAll (does tick) m k' tt
          (edited-Sane m.base count_tick t k count_tick-Neutral s)
          (edited-Attended m count_tick t k count_tick-Neutral a))
        (λ r l h.
          FollowsFrom-Tracks c (model_step (does tick) m) k' l r
            (edited-Clockwork c count_tick t k count_tick-Neutral w) h))

pub clock-Tracks :
    (c : Clocked) (k : Kernel)
    → Sane c.machine.base k
    → Attended c.machine k
    → Clockwork c k
    → (k.mem (running_of c)).num ≡ irq_int_base
    → Ensures (int_handler (running_of c) k) (Tracks (model_trap clock c))
clock-Tracks c k s a w num =
    let t = running_of c in
    let m = c.machine in
    let time = timer_bits (ticked k).ticks k.pit_freq in
    let same : time ≡ timer_bits (next_tick c) c.freq =
      ap (λ (f : ℕ). timer_bits ((k.ticks + 1) % u32) f) w.freq
      ∙ ap (λ (f : ℕ). timer_bits ((f + 1) % u32) c.freq) w.ticks in
    let m' = signals (fired 16 time 0) m in
    let c' : Clocked = record c { ticks = next_tick c } in
    let who : m'.base.running ≡ t = signals-running (fired 16 time 0) m in
    rw (int_handler-clock t k s.ne_null num w.timer_of) (
      Ensures-bind (λ _. Signalled (ticked k) m') (Tracks (model_trap clock c))
        (vtimer_loop 16 time 0 (ticked k)) (λ _. edit t count_tick >> (preempt t >> back))
        (vtimer_loop-signals 16 time 0 m (ticked k) (ticked-Sane m.base k s)
          (ticked-Attended m k a))
        (λ _ l j.
          let c2 : Clocked = record c' { machine = m' } in
          let done : Ensures ((edit t count_tick >> (preempt t >> back)) l)
              (Tracks (record c' { machine = model_step (does tick) m' })) =
            subst
              (λ x.
                Ensures ((edit x count_tick >> (preempt x >> back)) l)
                  (Tracks (record c' { machine = model_step (does tick) m' })))
              who
              (tick-Tracks c2 l j.0 j.1
                (SameClock-Clockwork c' m' (ticked k) l j.2 (ticked-Clockwork c k w))) in
          subst
            (λ x.
              Ensures ((edit t count_tick >> (preempt t >> back)) l) (
                Tracks (record c' { machine = model_step (does tick) (signals (fired 16 x 0) m) })))
            same done))
