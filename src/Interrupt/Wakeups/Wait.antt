-- ===== src/Interrupt/Wakeups/Wait.antt =====
-- KCALL_WAIT of src/kernel/kcall.c, among all the threads that wait.
use pinion.Base.{
  ℕ, ◌≡◌, refl, sym, ap, ◌∙◌, subst, ◌≢◌, ◌<◌, arith, inl, inr, List, [], ◌∷◌, ◌++◌, ◌∈◌, ◌∉◌,
  false, has, has-append, update, ==_ne, ◌==◌, ok, ◌>>=◌, not-mem-by, update-all, Bool-cases,
}
use pinion.Vm.{null}
use pinion.Kernel.{Kernel, load, edit, ev_count, ts_waiting, ts_queued, ts_running, ts_paused}
use pinion.Thread.Links.{IsQueue-same, Chain-ne-null}
use pinion.Thread.Sched.Fifo.{next_of}
use pinion.Thread.Event.{event_wait}
use pinion.Thread.Event.Fifo.{evlink_of, IsWaiting, Waits}
use pinion.Thread.Event.Kept.{SameEvents}
use pinion.Kcall.Threads.{set_eax, kcall_wait}
use pinion.Interrupt.Model.{Model, Waiting, Sane, Idle}
use pinion.Interrupt.States.{states, state_test, pred_same}
use pinion.Interrupt.Sane.{running-not-mem, running_state}
use pinion.Interrupt.Wakeups.Model.{Machine, Attended, waited}

pub kcall_wait-steps :
    (k : Kernel) (t n : ℕ)
    → t ≢ null
    → (k.mem t).ebx ≡ n
    → kcall_wait t k ≡ (event_wait (k.mem t).id n >>= set_eax t) k
unfolding kcall_wait load
kcall_wait-steps k t n some e = rw (==_ne t null some, e) refl

abbrev pub with_eax : ℕ → ℕ → Kernel → Kernel
with_eax t v k = record k { mem = update k.mem t (record (k.mem t) { eax = v }) }

pub set_eax-steps : (k : Kernel) (t v : ℕ) → t ≢ null → set_eax t v k ≡ ok tt (with_eax t v k)
unfolding set_eax edit
set_eax-steps k t v n = rw (==_ne t null n) refl

with_eax-state : (t v : ℕ) (k : Kernel) (p : ℕ) → states (with_eax t v k) p ≡ states k p
with_eax-state t v k p = ground arith

with_eax-Waiting : (m : Model) (k : Kernel) (t v : ℕ) → Waiting m k → Waiting m (with_eax t v k)
with_eax-Waiting m k t v w =
    let kept = λ (c p : ℕ). ap (λ (a : ℕ). a == c) (with_eax-state t v k p) in
    record {
      table = w.table;
      sched =
          IsQueue-same (next_of k) _ k.sched_head k.sched_tail m.queue (λ a i. ground arith)
            w.sched;
      queued = λ p. kept ts_queued p ∙ w.queued p;
      paused = λ p. kept ts_paused p ∙ w.paused p;
    }

pub with_eax-Idle : (m : Model) (k : Kernel) (t v : ℕ) → Idle m k → Idle m (with_eax t v k)
with_eax-Idle m k t v s =
    let kept = λ (c p : ℕ). ap (λ (a : ℕ). a == c) (with_eax-state t v k p) in
    record {
      waiting = with_eax-Waiting m k t v s.waiting;
      active = s.active;
      running = λ p. kept ts_running p ∙ s.running p;
    }

pub with_eax-Sane : (m : Model) (k : Kernel) (t v : ℕ) → Sane m k → Sane m (with_eax t v k)
with_eax-Sane m k t v s =
    let kept = λ (c p : ℕ). ap (λ (a : ℕ). a == c) (with_eax-state t v k p) in
    record {
      waiting = with_eax-Waiting m k t v s.waiting;
      active = s.active;
      ne_null = s.ne_null;
      running = λ p. kept ts_running p ∙ s.running p;
    }

pub with_eax-SameEvents : (k : Kernel) (t v : ℕ) → SameEvents k (with_eax t v k)
with_eax-SameEvents k t v = record {
  evqueue = refl;
  irqstate = refl;
  link = λ p. ground arith;
  event = λ p. ground arith;
  id = λ p. ground arith;
  clock = record {
    handlers = refl;
    ticks = refl;
    freq = refl;
    flags = λ p. ground arith;
    num = λ p. ground arith;
    fault_head = refl;
    fault_tail = refl;
    debug_tail = refl;
    cs = λ p. ground arith;
    fault_link = λ p. ground arith;
  };
  waiting = λ p w. ground arith;
}

-- The running thread waits: none runs.
pub Waits-Idle :
    (m : Model) (k l : Kernel) (n : ℕ) (xs : List ℕ)
    → Sane m k
    → l.active_thread ≡ null
    → Waits k m.running n xs m.queue l
    → Idle m l
Waits-Idle m k l n xs s none h =
    let t = m.running in
    let test = λ (c p : ℕ). state_test (states k) (states l) t ts_waiting c p h.state h.kept in
    let here = running_state m k s in
    record {
      waiting = record {
        table = h.table ∙ s.waiting.table;
        sched = h.sched;
        queued = λ p.
            test ts_queued p
            ∙ pred_same (λ o. has o m.queue) p t false (s.waiting.queued p) (running-not-mem m k s);
        paused = λ p.
            test ts_paused p
            ∙ pred_same m.paused p t false (s.waiting.paused p)
                (ground (arith, s.waiting.paused t, here));
      };
      active = none;
      running = λ p. test ts_running p ∙ ground (arith, s.running p);
    }

-- Who waits for one event does not wait for another, and does not run.
pub waiter_apart :
    (m : Machine) (k : Kernel) (e n p q : ℕ)
    → Attended m k
    → e < ev_count
    → n < ev_count
    → e ≢ n
    → p ∈ m.waiters e
    → q ∈ m.waiters n
    → p ≢ q
waiter_apart m k e n p q a se sn ne i j same =
    ne (sym (a.members e p se i).1 ∙ ap (λ (x : ℕ). (k.mem x).event) same ∙ (a.members n q sn j).1)

pub waiter-not-running :
    (m : Machine) (k : Kernel) (n p : ℕ)
    → Attended m k
    → Sane m.base k
    → n < ev_count
    → p ∈ m.waiters n
    → p ≢ m.base.running
waiter-not-running m k n p a s small i same =
    let w : (k.mem m.base.running).state ≡ ts_waiting =
      subst (λ (x : ℕ). (k.mem x).state ≡ ts_waiting) same (a.members n p small i).0 in
    let r = running_state m.base k s in ground (arith, w, r)

pub running-not-waiter :
    (m : Machine) (k : Kernel) (n : ℕ)
    → Attended m k
    → Sane m.base k
    → n < ev_count
    → m.base.running ∉ m.waiters n
running-not-waiter m k n a s small =
    not-mem-by m.base.running (m.waiters n)
      (λ i. waiter-not-running m k n m.base.running a s small i refl)

waited_queue :
    (m : Machine) (k l : Kernel) (n e : ℕ)
    → Attended m k
    → Sane m.base k
    → n < ev_count
    → e < ev_count
    → e ≢ n
    → Waits k m.base.running n (m.waiters n) m.base.queue l
    → IsWaiting l e (m.waiters e)
waited_queue m k l n e a s sn se ne h = rw (h.others e ne) (
    IsQueue-same (evlink_of k) (evlink_of l) _ _ (m.waiters e)
      (λ p i.
        h.link p (waiter-not-running m k e p a s se i)
          (not-mem-by p (m.waiters n) (λ j. waiter_apart m k e n p p a se sn ne i j refl))
          (Chain-ne-null (evlink_of k) _ p (m.waiters e) (a.queues e se).chain i))
      (a.queues e se))

-- The members of a queue that have not changed.
Waits-kept :
    (m : Machine) (k l : Kernel) (n e p : ℕ)
    → Attended m k
    → Sane m.base k
    → e < ev_count
    → Waits k m.base.running n (m.waiters n) m.base.queue l
    → p ∈ m.waiters e
    → ((l.mem p).state ≡ ts_waiting) × ((l.mem p).event ≡ e)
Waits-kept m k l n e p a s small h i =
    let ne = waiter-not-running m k e p a s small i in
    (h.kept p ne ∙ (a.members e p small i).0, h.events p ne ∙ (a.members e p small i).1)

Waits-member :
    (m : Machine) (k l : Kernel) (n p : ℕ)
    → Attended m k
    → Sane m.base k
    → n < ev_count
    → Waits k m.base.running n (m.waiters n) m.base.queue l
    → p ∈ (m.waiters n ++ m.base.running ∷ [])
    → ((l.mem p).state ≡ ts_waiting) × ((l.mem p).event ≡ n)
Waits-member m k l n p a s small h i = elim (Bool-cases (has p (m.waiters n))) [
  | inl old ↦ Waits-kept m k l n n p a s small h old
  | inr new ↦
      let same : p ≡ m.base.running =
        ground (arith, has-append p (m.waiters n) (m.base.running ∷ []), i, new) in
      subst (λ x. ((l.mem x).state ≡ ts_waiting) × ((l.mem x).event ≡ n)) (sym same)
        (h.state, h.event_of)
]

pub Waits-Attended :
    (m : Machine) (k l : Kernel) (n : ℕ)
    → Attended m k
    → Sane m.base k
    → n < ev_count
    → Waits k m.base.running n (m.waiters n) m.base.queue l
    → Attended (waited n m) l
Waits-Attended m k l n a s small h = record {
  queues =
      update-all (λ e xs. e < ev_count → IsWaiting l e xs) m.waiters n _ (λ _. h.waiting)
        (λ e ne se. waited_queue m k l n e a s small se ne h);
  members =
      update-all
        (λ e xs.
          (p : ℕ) → e < ev_count → p ∈ xs → ((l.mem p).state ≡ ts_waiting) × ((l.mem p).event ≡ e))
        m.waiters n _ (λ p _ i. Waits-member m k l n p a s small h i)
        (λ e ne p se i. Waits-kept m k l n e p a s se h i);
  pending = λ e. ap (λ (f : ℕ → ℕ). f e == 0) h.irqstate ∙ a.pending e;
  ids = λ p. h.id p ∙ a.ids p;
}
