-- ===== src/Thread/Event/Kept.antt =====
-- What leaves the event queues of src/kernel/thread.c alone, and the threads that wait in them.
use pinion.Base.{
  ℕ, ◌≡◌, refl, ap, ◌∙◌, ◌≢◌, arith, Ensures, Ensures-bind, Ensures-mono, update, ==_ne,
}
use pinion.Vm.{null}
use pinion.Kernel.{Thread, Kernel, edit, ts_waiting, ts_queued}
use pinion.Thread.Clock.{SameClock, SameClock-trans, SameClock-mem}
use pinion.Thread.Table.{thread_save}
use pinion.Thread.Table.Load.{SameButCpu, thread_save-active}
use pinion.Thread.Sched.Fifo.{SameButSched, schedule_push-pushed, pushed}
use pinion.Thread.Requeue.{requeue}

-- The event queues of `l`, their links, the pending events and the IDs are as in `k`, and who waits
-- in `k` still does; the timer and the handlers too are as in `k`.
pub record SameEvents (k l : Kernel) : Type 0 where
  pub evqueue : l.evqueue ≡ k.evqueue
  pub irqstate : l.irqstate ≡ k.irqstate
  pub link : (p : ℕ) → (l.mem p).next_evqueue ≡ (k.mem p).next_evqueue
  pub event : (p : ℕ) → (l.mem p).event ≡ (k.mem p).event
  pub id : (p : ℕ) → (l.mem p).id ≡ (k.mem p).id
  pub clock : SameClock k l
  pub waiting : (p : ℕ) → (k.mem p).state ≡ ts_waiting → (l.mem p).state ≡ ts_waiting

pub SameEvents-trans : (k l m : Kernel) → SameEvents k l → SameEvents l m → SameEvents k m
SameEvents-trans k l m f g = record {
  evqueue = g.evqueue ∙ f.evqueue;
  irqstate = g.irqstate ∙ f.irqstate;
  link = λ p. g.link p ∙ f.link p;
  event = λ p. g.event p ∙ f.event p;
  id = λ p. g.id p ∙ f.id p;
  clock = SameClock-trans k l m f.clock g.clock;
  waiting = λ p w. g.waiting p (f.waiting p w);
}

-- Where the thread structures stay, and the event queues and the pending events.
pub SameEvents-mem :
    (k l : Kernel)
    → l.mem ≡ k.mem
    → l.evqueue ≡ k.evqueue
    → l.irqstate ≡ k.irqstate
    → SameClock k l
    → SameEvents k l
SameEvents-mem k l em ev ei c = record {
  evqueue = ev;
  irqstate = ei;
  link = λ p. ap (λ (f : ℕ → Thread). (f p).next_evqueue) em;
  event = λ p. ap (λ (f : ℕ → Thread). (f p).event) em;
  id = λ p. ap (λ (f : ℕ → Thread). (f p).id) em;
  clock = c;
  waiting = λ p w. ap (λ (f : ℕ → Thread). (f p).state) em ∙ w;
}

pub SameButCpu-SameEvents : (k l : Kernel) → SameButCpu k l → SameEvents k l
SameButCpu-SameEvents k l h =
    SameEvents-mem k l (ap (λ (m : Kernel). m.mem) h) (ap (λ (m : Kernel). m.evqueue) h)
      (ap (λ (m : Kernel). m.irqstate) h)
      (SameClock-mem k l (ap (λ (m : Kernel). m.mem) h) (ap (λ (m : Kernel). m.int_handlers) h)
        (ap (λ (m : Kernel). m.ticks) h) (ap (λ (m : Kernel). m.pit_freq) h)
        (ap (λ (m : Kernel). m.fault_head) h) (ap (λ (m : Kernel). m.fault_tail) h)
        (ap (λ (m : Kernel). m.debug_tail) h))

pub SameButSched-SameEvents : (k l : Kernel) → SameButSched k l → SameEvents k l
SameButSched-SameEvents k l h = record {
  evqueue = ap (λ (m : Kernel). m.evqueue) h.0;
  irqstate = ap (λ (m : Kernel). m.irqstate) h.0;
  link = λ p. ap (λ (t : Thread). t.next_evqueue) (h.1 p);
  event = λ p. ap (λ (t : Thread). t.event) (h.1 p);
  id = λ p. ap (λ (t : Thread). t.id) (h.1 p);
  clock = record {
    handlers = ap (λ (m : Kernel). m.int_handlers) h.0;
    ticks = ap (λ (m : Kernel). m.ticks) h.0;
    freq = ap (λ (m : Kernel). m.pit_freq) h.0;
    flags = λ p. ap (λ (t : Thread). t.flags) (h.1 p);
    num = λ p. ap (λ (t : Thread). t.num) (h.1 p);
    cs = λ p. ap (λ (t : Thread). t.cs) (h.1 p);
    fault_link = λ p. ap (λ (t : Thread). t.next_fault) (h.1 p);
    fault_head = ap (λ (m : Kernel). m.fault_head) h.0;
    fault_tail = ap (λ (m : Kernel). m.fault_tail) h.0;
    debug_tail = ap (λ (m : Kernel). m.debug_tail) h.0;
  };
  waiting = λ p w. ap (λ (t : Thread). t.state) (h.1 p) ∙ w;
}

-- A thread that does not wait changes its state.
pub state-SameEvents :
    (k : Kernel) (t s : ℕ)
    → (k.mem t).state ≢ ts_waiting
    → SameEvents k (record k { mem = update k.mem t (record (k.mem t) { state = s }) })
state-SameEvents k t s n = record {
  evqueue = refl;
  irqstate = refl;
  link = λ p. ground arith;
  event = λ p. ground arith;
  id = λ p. ground arith;
  clock = record {
    handlers = refl;
    ticks = refl;
    freq = refl;
    flags = λ p. ground arith;
    num = λ p. ground arith;
    fault_head = refl;
    fault_tail = refl;
    debug_tail = refl;
    cs = λ p. ground arith;
    fault_link = λ p. ground arith;
  };
  waiting = λ p w. ground arith;
}

pub requeue-SameEvents :
    (k : Kernel) (t : ℕ)
    → t ≢ null
    → (k.mem t).state ≢ ts_waiting
    → Ensures (requeue t k) (λ _. SameEvents k)
unfolding requeue edit
requeue-SameEvents k t n off =
    Ensures-bind (λ _. SameButCpu k) _ (thread_save t k) _
      (Ensures-mono (λ r l. (l.active_thread ≡ null) × SameButCpu k l) _ (thread_save t k)
        (thread_save-active t k) (λ _ l h. h.1))
      (λ _ l h.
        let same = SameButCpu-SameEvents k l h in
        let state : (l.mem t).state ≡ (k.mem t).state = ap (λ (m : Kernel). (m.mem t).state) h in
        rw (schedule_push-pushed t l n, ==_ne t null n)
          (SameEvents-trans k (pushed t l) _
            (SameEvents-trans k l (pushed t l) same (record {
              evqueue = refl;
              irqstate = refl;
              link = λ p. ground arith;
              event = λ p. ground arith;
              id = λ p. ground arith;
              clock = record {
                handlers = refl;
                ticks = refl;
                freq = refl;
                flags = λ p. ground arith;
                num = λ p. ground arith;
                fault_head = refl;
                fault_tail = refl;
                debug_tail = refl;
                cs = λ p. ground arith;
                fault_link = λ p. ground arith;
              };
              waiting = λ p w. ground arith;
            }))
            (state-SameEvents (pushed t l) t ts_queued (ground (arith, state)))))
