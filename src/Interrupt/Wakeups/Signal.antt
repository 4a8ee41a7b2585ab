-- ===== src/Interrupt/Wakeups/Signal.antt =====
-- `event_send` of src/kernel/thread.c and KCALL_RESET of src/kernel/kcall.c, among all the threads
-- that wait.
use pinion.Base.{
  ℕ, ◌≡◌, sym, ap, ◌∙◌, subst, ◌≢◌, ◌<◌, arith, List, [], ◌∷◌, ◌++◌, ◌∈◌, ◌∉◌, true, false, not,
  has-append, Ensures, update, ==_ne, ◌==◌, update-all, ltb, if◌then◌else◌, Bool, mem-ne,
}
use pinion.Vm.{null}
use pinion.Kernel.{
  Thread, Kernel, load, edit, ev_count, ts_waiting, ts_queued, ts_running, ts_paused,
}
use pinion.Irq.{irq_unmask}
use pinion.Thread.Links.{IsQueue-same}
use pinion.Thread.Clock.{SameClock, SameClock-mem}
use pinion.Thread.Event.Fifo.{evlink_of, IsWaiting}
use pinion.Thread.Event.Latch.{Woken, Latched, irqstate_after}
use pinion.Kcall.Threads.{set_eax, kcall_reset}
use pinion.Interrupt.Model.{Model, Sane}
use pinion.Interrupt.States.{states, state_test, pred_same}
use pinion.Interrupt.Sane.{running_state}
use pinion.Interrupt.Wakeups.Model.{Machine, Attended, woken, set_pending}
use pinion.Interrupt.Wakeups.Wait.{with_eax, waiter_apart}

-- A waiting thread is not queued.
pub waiter-not-queued :
    (m : Machine) (k : Kernel) (n p : ℕ)
    → Attended m k
    → Sane m.base k
    → n < ev_count
    → p ∈ m.waiters n
    → p ∉ m.base.queue
waiter-not-queued m k n p a s small i =
    let w = (a.members n p small i).0 in ground (arith, s.waiting.queued p, w)

-- The first of those that wait for an event is queued.
pub Woken-Sane :
    (m : Model) (k l : Kernel) (n x : ℕ) (ts : List ℕ)
    → Sane m k
    → (k.mem x).state ≡ ts_waiting
    → Woken k x n ts m.queue l
    → Sane (record m { queue = m.queue ++ x ∷ [] }) l
Woken-Sane m k l n x ts s waits h =
    let test = λ (c p : ℕ). state_test (states k) (states l) x ts_queued c p h.state h.kept in
    let apart : x ≢ m.running = (λ e.
      let r = running_state m k s in
      let w : (k.mem m.running).state ≡ ts_waiting =
        subst (λ p. (k.mem p).state ≡ ts_waiting) e waits in
      ground (arith, r, w)) in
    record {
      waiting = record {
        table = h.table ∙ s.waiting.table;
        sched = h.sched;
        queued = λ p.
            test ts_queued p ∙ ground (arith, s.waiting.queued p, has-append p m.queue (x ∷ []));
        paused = λ p.
            test ts_paused p
            ∙ pred_same m.paused p x false (s.waiting.paused p)
                (ground (arith, s.waiting.paused x, waits));
      };
      active = h.active ∙ s.active;
      ne_null = s.ne_null;
      running = λ p.
          test ts_running p
          ∙ pred_same (λ o. o == m.running) p x false (s.running p) (==_ne x m.running apart);
    }

-- The pending events after an event is sent.
pending_after :
    (n e : ℕ) (f : ℕ → ℕ) (g : ℕ → Bool)
    → ((f e == 0) ≡ not (g e))
    → (irqstate_after n f e == 0) ≡ not ((if ltb n 240 then update g n true else g) e)
pending_after n e f g h = ground arith

Woken-kept :
    (m : Machine) (k l : Kernel) (n x e p : ℕ) (ts : List ℕ)
    → Attended m k
    → e < ev_count
    → p ≢ x
    → Woken k x n ts m.base.queue l
    → p ∈ m.waiters e
    → ((l.mem p).state ≡ ts_waiting) × ((l.mem p).event ≡ e)
Woken-kept m k l n x e p ts a small ne h i =
    (h.kept p ne ∙ (a.members e p small i).0, h.events p ne ∙ (a.members e p small i).1)

pub Woken-Attended :
    (m : Machine) (k l : Kernel) (n x : ℕ) (ts : List ℕ)
    → Attended m k
    → n < ev_count
    → m.waiters n ≡ x ∷ ts
    → Woken k x n ts m.base.queue l
    → l.irqstate ≡ irqstate_after n k.irqstate
    → Attended (set_pending n true (woken n (x ∷ ts) m)) l
Woken-Attended m k l n x ts a small e h pending =
    let q : IsWaiting k n (x ∷ ts) = subst (λ xs. IsWaiting k n xs) e (a.queues n small) in
    let first : x ∈ m.waiters n = subst (λ xs. x ∈ xs) (sym e) (ground arith) in
    record {
      queues =
          update-all (λ o xs. o < ev_count → IsWaiting l o xs) m.waiters n ts (λ _. h.waiting)
            (λ o ne so. rw (h.others o ne) (
              IsQueue-same (evlink_of k) (evlink_of l) _ _ (m.waiters o) (λ p i. h.link p)
                (a.queues o so)));
      members =
          update-all
            (λ o xs.
              (p : ℕ)
              → o < ev_count
              → p ∈ xs
              → ((l.mem p).state ≡ ts_waiting) × ((l.mem p).event ≡ o))
            m.waiters n ts
            (λ p so i.
              Woken-kept m k l n x n p ts a so (λ c. mem-ne x p ts q.distinct.0 i (sym c)) h
                (subst (λ xs. p ∈ xs) (sym e) (ground (arith, i))))
            (λ o ne p so i.
              Woken-kept m k l n x o p ts a so (waiter_apart m k o n p x a so small ne i first) h
                i);
      pending = λ o.
          ap (λ (f : ℕ → ℕ). f o == 0) pending
          ∙ pending_after n o k.irqstate m.pending (a.pending o);
      ids = λ p. h.id p ∙ a.ids p;
    }

-- `l` differs from `k` only in the pending events and the interrupt controller.
abbrev pub Controlled : Kernel → Kernel → Type 0
Controlled k l =
    l ≡ record k { irq_mask_word = l.irq_mask_word; ports = l.ports; irqstate = l.irqstate }

Latched-Controlled : (n : ℕ) (k l : Kernel) → Latched n k l → Controlled k l
Latched-Controlled n k l h =
    h
    ∙ ap (λ f. record k { irq_mask_word = l.irq_mask_word; ports = l.ports; irqstate = f })
        (sym (ap (λ (x : Kernel). x.irqstate) h))

pub Controlled-Sane : (m : Model) (k l : Kernel) → Controlled k l → Sane m k → Sane m l
Controlled-Sane m k l h s =
    let em : l.mem ≡ k.mem = ap (λ (x : Kernel). x.mem) h in
    let eh : l.sched_head ≡ k.sched_head = ap (λ (x : Kernel). x.sched_head) h in
    let et : l.sched_tail ≡ k.sched_tail = ap (λ (x : Kernel). x.sched_tail) h in
    let kept = λ (c p : ℕ). ap (λ (f : ℕ → Thread). (f p).state == c) em in
    record {
      waiting = record {
        table = ap (λ (x : Kernel). x.thread_table) h ∙ s.waiting.table;
        sched = rw (em, eh, et) s.waiting.sched;
        queued = λ p. kept ts_queued p ∙ s.waiting.queued p;
        paused = λ p. kept ts_paused p ∙ s.waiting.paused p;
      };
      active = ap (λ (x : Kernel). x.active_thread) h ∙ s.active;
      ne_null = s.ne_null;
      running = λ p. kept ts_running p ∙ s.running p;
    }

pub Controlled-SameClock : (k l : Kernel) → Controlled k l → SameClock k l
Controlled-SameClock k l h =
    SameClock-mem k l (ap (λ (m : Kernel). m.mem) h) (ap (λ (m : Kernel). m.int_handlers) h)
      (ap (λ (m : Kernel). m.ticks) h) (ap (λ (m : Kernel). m.pit_freq) h)
      (ap (λ (m : Kernel). m.fault_head) h) (ap (λ (m : Kernel). m.fault_tail) h)
      (ap (λ (m : Kernel). m.debug_tail) h)

pub Latched-Sane : (m : Model) (n : ℕ) (k l : Kernel) → Latched n k l → Sane m k → Sane m l
Latched-Sane m n k l h s = Controlled-Sane m k l (Latched-Controlled n k l h) s

pub Latched-Attended :
    (m : Machine) (n : ℕ) (k l : Kernel)
    → Latched n k l
    → Attended m k
    → Attended (set_pending n true m) l
Latched-Attended m n k l h a =
    let em : l.mem ≡ k.mem = ap (λ (x : Kernel). x.mem) h in
    let ev : l.evqueue ≡ k.evqueue = ap (λ (x : Kernel). x.evqueue) h in
    let pending : l.irqstate ≡ irqstate_after n k.irqstate = ap (λ (x : Kernel). x.irqstate) h in
    record {
      queues = λ o so. rw (em, ev) (a.queues o so);
      members = λ o p so i. rw em (a.members o p so i);
      pending = λ o.
          ap (λ (f : ℕ → ℕ). f o == 0) pending
          ∙ pending_after n o k.irqstate m.pending (a.pending o);
      ids = λ p. rw em (a.ids p);
    }

-- KCALL_RESET of event `n`: it is not pending any more, and the caller gets 0.
pub kcall_reset-Controlled :
    (k : Kernel) (t n : ℕ)
    → t ≢ null
    → (k.mem t).ebx ≡ n
    → Ensures (kcall_reset t k) (λ _ l.
      Controlled (with_eax t 0 k) l
      × (l.irqstate ≡ (if ltb n 240 then update k.irqstate n 0 else k.irqstate)))
unfolding kcall_reset load set_eax edit irq_unmask
kcall_reset-Controlled k t n some e = rw (==_ne t null some, e) (ground arith)

pub Reset-Attended :
    (m : Machine) (n : ℕ) (k l : Kernel)
    → Controlled k l
    → l.irqstate ≡ (if ltb n 240 then update k.irqstate n 0 else k.irqstate)
    → Attended m k
    → Attended (set_pending n false m) l
Reset-Attended m n k l h pending a =
    let em : l.mem ≡ k.mem = ap (λ (x : Kernel). x.mem) h in
    let ev : l.evqueue ≡ k.evqueue = ap (λ (x : Kernel). x.evqueue) h in
    record {
      queues = λ o so. rw (em, ev) (a.queues o so);
      members = λ o p so i. rw em (a.members o p so i);
      pending = λ o.
          ap (λ (f : ℕ → ℕ). f o == 0) pending ∙ (let prior = a.pending o in ground (arith, prior));
      ids = λ p. rw em (a.ids p);
    }
