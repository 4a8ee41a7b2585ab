-- ===== src/Interrupt/Entry/Kept.antt =====
-- Changes of a thread's structure, and of the timer's state, that mean nothing to the scheduling.
use pinion.Base.{
  ℕ, ◌+◌, ◌≡◌, refl, sym, ap, ◌∙◌, ◌==◌, update, update_field, Bool-cases, inl, inr, arith, bit_and,
  fun_ext,
}
use pinion.Kernel.{Thread, Kernel, ts_queued, ts_running, ts_paused, tf_user}
use pinion.Thread.Links.{IsQueue-same}
use pinion.Thread.Sched.Fifo.{next_of}
use pinion.Thread.Event.Fifo.{evlink_of}
use pinion.Thread.Fault.Push.{faultlink_of}
use pinion.Thread.Clock.{SameClock}
use pinion.Interrupt.Model.{Model, Sane}
use pinion.Interrupt.Sane.{with_ebx}
use pinion.Interrupt.Wakeups.Model.{Machine, Attended}
use pinion.Interrupt.Wakeups.Calls.{FollowsFrom}
use pinion.Interrupt.Entry.Model.{
  Trap, clock, irq, page_fault, request, trap_regs, cpu_state, Clocked, Clockwork, Tracks,
}

-- `f` changes none of the fields that the queues and the states are about.
pub record Neutral (f : Thread → Thread) : Type 0 where
  pub state : (s : Thread) → (f s).state ≡ s.state
  pub next : (s : Thread) → (f s).next ≡ s.next
  pub link : (s : Thread) → (f s).next_evqueue ≡ s.next_evqueue
  pub event : (s : Thread) → (f s).event ≡ s.event
  pub id : (s : Thread) → (f s).id ≡ s.id
  pub flags : (s : Thread) → (f s).flags ≡ s.flags
  pub cs : (s : Thread) → (f s).cs ≡ s.cs
  pub fault_link : (s : Thread) → (f s).next_fault ≡ s.next_fault

pub trap_regs-Neutral : (trap : Trap) → Neutral (trap_regs trap)
trap_regs-Neutral clock = record {
  state = λ s. refl;
  next = λ s. refl;
  link = λ s. refl;
  event = λ s. refl;
  id = λ s. refl;
  flags = λ s. refl;
  cs = λ s. refl;
  fault_link = λ s. refl;
}
trap_regs-Neutral (irq n) = record {
  state = λ s. refl;
  next = λ s. refl;
  link = λ s. refl;
  event = λ s. refl;
  id = λ s. refl;
  flags = λ s. refl;
  cs = λ s. refl;
  fault_link = λ s. refl;
}
trap_regs-Neutral (page_fault addr) = record {
  state = λ s. refl;
  next = λ s. refl;
  link = λ s. refl;
  event = λ s. refl;
  id = λ s. refl;
  flags = λ s. refl;
  cs = λ s. refl;
  fault_link = λ s. refl;
}
trap_regs-Neutral (request r) = record {
  state = λ s. refl;
  next = λ s. refl;
  link = λ s. refl;
  event = λ s. refl;
  id = λ s. refl;
  flags = λ s. refl;
  cs = λ s. refl;
  fault_link = λ s. refl;
}

abbrev pub edited : (Thread → Thread) → ℕ → Kernel → Kernel
edited f t k = record k { mem = update k.mem t (f (k.mem t)) }

-- A field that `f` does not change.
field_kept :
    (g : Thread → ℕ) (f : Thread → Thread) (t : ℕ) (k : Kernel) (p : ℕ)
    → ((s : Thread) → g (f s) ≡ g s)
    → g ((edited f t k).mem p) ≡ g (k.mem p)
field_kept g f t k p keeps = update_field g f k.mem t p keeps

pub edited-Sane :
    (m : Model) (f : Thread → Thread) (t : ℕ) (k : Kernel)
    → Neutral f
    → Sane m k
    → Sane m (edited f t k)
edited-Sane m f t k h s =
    let kept =
      λ (c p : ℕ). ap (λ (a : ℕ). a == c) (field_kept (λ (o : Thread). o.state) f t k p h.state) in
    record {
      waiting = record {
        table = s.waiting.table;
        sched =
            IsQueue-same (next_of k) _ k.sched_head k.sched_tail m.queue
              (λ a i. field_kept (λ (o : Thread). o.next) f t k a h.next) s.waiting.sched;
        queued = λ p. kept ts_queued p ∙ s.waiting.queued p;
        paused = λ p. kept ts_paused p ∙ s.waiting.paused p;
      };
      active = s.active;
      ne_null = s.ne_null;
      running = λ p. kept ts_running p ∙ s.running p;
    }

pub edited-Attended :
    (m : Machine) (f : Thread → Thread) (t : ℕ) (k : Kernel)
    → Neutral f
    → Attended m k
    → Attended m (edited f t k)
edited-Attended m f t k h a = record {
  queues = λ n small.
      IsQueue-same (evlink_of k) (evlink_of (edited f t k)) _ _ (m.waiters n)
        (λ p i. field_kept (λ (o : Thread). o.next_evqueue) f t k p h.link) (a.queues n small);
  members = λ n p small i. (
    field_kept (λ (o : Thread). o.state) f t k p h.state ∙ (a.members n p small i).0,
    field_kept (λ (o : Thread). o.event) f t k p h.event ∙ (a.members n p small i).1,
  );
  pending = a.pending;
  ids = λ p. field_kept (λ (o : Thread). o.id) f t k p h.id ∙ a.ids p;
}

pub edited-Clockwork :
    (c : Clocked) (f : Thread → Thread) (t : ℕ) (k : Kernel)
    → Neutral f
    → Clockwork c k
    → Clockwork c (edited f t k)
edited-Clockwork c f t k h w = record {
  ticks = w.ticks;
  freq = w.freq;
  user = λ p.
      ap (λ (a : ℕ). bit_and a tf_user == 0) (field_kept (λ (o : Thread). o.flags) f t k p h.flags)
      ∙ w.user p;
  rings = λ p.
      ap (λ (a : ℕ). bit_and a 0x3) (field_kept (λ (o : Thread). o.cs) f t k p h.cs) ∙ w.rings p;
  faulty =
      IsQueue-same (faultlink_of k) (faultlink_of (edited f t k)) _ _ c.faulty
        (λ p i. field_kept (λ (o : Thread). o.next_fault) f t k p h.fault_link) w.faulty;
  clear =
      λ p off m. field_kept (λ (o : Thread). o.next_fault) f t k p h.fault_link ∙ w.clear p off m;
  no_debugger = w.no_debugger;
  faults_of = w.faults_of;
  timer_of = w.timer_of;
  calls_of = w.calls_of;
  irqs_of = w.irqs_of;
}

-- What the processor records means nothing to the scheduling either.
pub cpu_state-Sane : (trap : Trap) (m : Model) (k : Kernel) → Sane m k → Sane m (cpu_state trap k)
cpu_state-Sane clock m k s = s
cpu_state-Sane (irq n) m k s = s
cpu_state-Sane (page_fault addr) m k s = record {
  waiting = record {
    table = s.waiting.table;
    sched = s.waiting.sched;
    queued = s.waiting.queued;
    paused = s.waiting.paused;
  };
  active = s.active;
  ne_null = s.ne_null;
  running = s.running;
}
cpu_state-Sane (request r) m k s = s

pub cpu_state-Attended :
    (trap : Trap) (m : Machine) (k : Kernel) → Attended m k → Attended m (cpu_state trap k)
cpu_state-Attended clock m k a = a
cpu_state-Attended (irq n) m k a = a
cpu_state-Attended (page_fault addr) m k a = record {
  queues = a.queues;
  members = a.members;
  pending = a.pending;
  ids = a.ids;
}
cpu_state-Attended (request r) m k a = a

pub cpu_state-Clockwork :
    (trap : Trap) (c : Clocked) (k : Kernel) → Clockwork c k → Clockwork c (cpu_state trap k)
cpu_state-Clockwork clock c k w = w
cpu_state-Clockwork (irq n) c k w = w
cpu_state-Clockwork (page_fault addr) c k w = record {
  ticks = w.ticks;
  freq = w.freq;
  user = w.user;
  rings = w.rings;
  faulty = w.faulty;
  clear = w.clear;
  no_debugger = w.no_debugger;
  faults_of = w.faults_of;
  timer_of = w.timer_of;
  calls_of = w.calls_of;
  irqs_of = w.irqs_of;
}
cpu_state-Clockwork (request r) c k w = w

-- What `SameClock` keeps.
pub SameClock-Clockwork :
    (c : Clocked) (m : Machine) (k l : Kernel)
    → SameClock k l
    → Clockwork c k
    → Clockwork (record c { machine = m }) l
SameClock-Clockwork c m k l h w = record {
  ticks = h.ticks ∙ w.ticks;
  freq = h.freq ∙ w.freq;
  user = λ p. ap (λ (a : ℕ). bit_and a tf_user == 0) (h.flags p) ∙ w.user p;
  rings = λ p. ap (λ (a : ℕ). bit_and a 0x3) (h.cs p) ∙ w.rings p;
  faulty =
      rw (h.fault_head, h.fault_tail)
        (IsQueue-same (faultlink_of k) (faultlink_of l) _ _ c.faulty (λ p i. h.fault_link p)
          w.faulty);
  clear = λ p off n. h.fault_link p ∙ w.clear p off n;
  no_debugger = h.debug_tail ∙ w.no_debugger;
  faults_of = ap (λ f. f 0x0E) h.handlers ∙ w.faults_of;
  timer_of = ap (λ f. f 32) h.handlers ∙ w.timer_of;
  calls_of = ap (λ f. f 0x81) h.handlers ∙ w.calls_of;
  irqs_of = λ n low high. ap (λ f. f (32 + n)) h.handlers ∙ w.irqs_of n low high;
}

-- `ebx` already holds the argument.
pub with_ebx-same : (k : Kernel) (t arg : ℕ) → (k.mem t).ebx ≡ arg → with_ebx t arg k ≡ k
with_ebx-same k t arg e =
    let here : record (k.mem t) { ebx = arg } ≡ k.mem t =
      ap (λ (b : ℕ). record (k.mem t) { ebx = b }) (sym e) in
    ap (λ (f : ℕ → Thread). record k { mem = f })
      (fun_ext (λ p. elim (Bool-cases (p == t)) [
        | inl i ↦ rw i (here ∙ ap k.mem (let same : t ≡ p = ground (arith, i) in same))
        | inr ne ↦ rw ne
      ]))

pub FollowsFrom-Tracks :
    (c : Clocked) (m : Machine) (k l : Kernel) (r : ℕ)
    → Clockwork c k
    → FollowsFrom k m r l
    → Tracks (record c { machine = m }) r l
FollowsFrom-Tracks c m k l r w h = record {
  running = h.0.0;
  sane = h.0.1;
  attended = h.0.2;
  clockwork = SameClock-Clockwork c m k l h.1 w;
}
