-- ===== src/Thread/Event/Latch.antt =====
-- `event_send` of src/kernel/thread.c, alone and before `event_wait`.
use pinion.Base.{
  ap, ◌∙◌, ℕ, ◌<◌, ◌^◌, ◌≡◌, refl, ◌≢◌, true, false, List, [], ◌∷◌, ◌++◌, arith, Ensures,
  Ensures-bind, ◌==◌, if◌then◌else◌, ltb, leb, update, ==_ne, ==_refl, ◌∉◌, pure, ◌>>◌, when,
}
use pinion.Vm.{null}
use pinion.Kernel.{Kernel, load, edit, ev_count, ts_queued, ts_running, minus_one}
use pinion.Irq.{irq_mask, irq_reset}
use pinion.Thread.Links.{IsQueue, IsQueue-tail, IsQueue-same}
use pinion.Thread.Clock.{SameClock, SameClock-trans, SameClock-mem}
use pinion.Thread.Sched.{schedule_push}
use pinion.Thread.Sched.Fifo.{IsSched, next_of, schedule_push-pushed, pushed, pushed-IsSched}
use pinion.Thread.Requeue.{requeue, Requeued, requeue-Requeued}
use pinion.Thread.Event.{event_wait, wait_pending, event_send, event_deliver, event_latch}
use pinion.Thread.Event.Fifo.{evlink_of, IsWaiting, Names, thread_get-entry}

-- The state in which `event_deliver` schedules the thread `t`.
abbrev taken : ℕ → ℕ → Kernel → Kernel
taken t event k =
    let rest = (k.mem t).next_evqueue in
    record k {
      mem = update k.mem t (record (k.mem t) { eax = event; event = minus_one });
      evqueue = update k.evqueue event (record {
        front_thread = rest;
        back_thread = if rest == null then null else (k.evqueue event).back_thread;
      });
    }

event_deliver-steps :
    (t event : ℕ) (k : Kernel)
    → t ≢ null
    → (k.mem t).state ≢ ts_running
    → event_deliver t event k
      ≡ (schedule_push t >> edit t (λ s. record s { state = ts_queued })) (taken t event k)
unfolding event_deliver load edit
event_deliver-steps t event k n idle_state = ground arith

-- `t` has left the queue of `event` to `ts` and stands behind `ys` in the scheduler's queue, with
-- the event in `eax`; the queues of the other events, the table, the active thread, and the other
-- threads' states are as in `k`.
pub record Woken (k : Kernel) (t event : ℕ) (ts ys : List ℕ) (l : Kernel) : Type 0 where
  pub waiting : IsWaiting l event ts
  pub sched : IsSched l (ys ++ t ∷ [])
  pub state : (l.mem t).state ≡ ts_queued
  pub eax : (l.mem t).eax ≡ event
  pub others : (e : ℕ) → e ≢ event → l.evqueue e ≡ k.evqueue e
  pub table : l.thread_table ≡ k.thread_table
  pub active : l.active_thread ≡ k.active_thread
  pub clock : SameClock k l
  pub id : (p : ℕ) → (l.mem p).id ≡ (k.mem p).id
  pub link : (p : ℕ) → evlink_of l p ≡ evlink_of k p
  pub events : (p : ℕ) → p ≢ t → (l.mem p).event ≡ (k.mem p).event
  pub kept : (p : ℕ) → p ≢ t → (l.mem p).state ≡ (k.mem p).state

taken-IsWaiting :
    (k : Kernel) (t event : ℕ) (ts : List ℕ)
    → (k.evqueue event).front_thread ≡ t
    → IsWaiting k event (t ∷ ts)
    → IsQueue
        (evlink_of k)
        (evlink_of k t)
        (if evlink_of k t == null then null else (k.evqueue event).back_thread)
        ts
taken-IsWaiting k t event ts e q =
    rw (← e) (
      IsQueue-tail (evlink_of k) (k.evqueue event).front_thread (k.evqueue event).back_thread t ts
        q)

deliver-Woken :
    (k : Kernel) (t event : ℕ) (ts ys : List ℕ)
    → (k.mem t).state ≢ ts_running
    → t ∉ ys
    → IsWaiting k event (t ∷ ts)
    → IsSched k ys
    → Ensures (event_deliver t event k) (λ _ l. Woken k t event ts ys l × (l.irqstate ≡ k.irqstate))
unfolding edit
deliver-Woken k t event ts ys idle_state out q s =
    let n : t ≢ null = q.chain.1 in
    let m = taken t event k in
    let s' : IsSched m ys =
      IsQueue-same (next_of k) _ k.sched_head k.sched_tail ys (λ a i. ground arith) s in
    let p' : IsSched (pushed t m) (ys ++ t ∷ []) = pushed-IsSched t m ys n out s' in
    rw (event_deliver-steps t event k n idle_state, schedule_push-pushed t m n, ==_ne t null n)
      (
        record {
          waiting = rw (==_refl event) (
              IsQueue-same (evlink_of k) _ _ _ ts (λ a i. ground arith)
                (taken-IsWaiting k t event ts q.chain.0 q));
          sched = IsQueue-same (next_of (pushed t m)) _ _ t (ys ++ t ∷ []) (λ a i. ground arith) p';
          state = ground arith;
          eax = ground arith;
          others = λ e ne. ground arith;
          table = refl;
          active = refl;
          clock = record {
            handlers = refl;
            ticks = refl;
            freq = refl;
            flags = λ p. ground arith;
            num = λ p. ground arith;
            fault_head = refl;
            fault_tail = refl;
            debug_tail = refl;
            cs = λ p. ground arith;
            fault_link = λ p. ground arith;
          };
          id = λ p. ground arith;
          link = λ p. ground arith;
          events = λ p ne. ground arith;
          kept = λ p ne. ground arith;
        },
        refl,
      )

-- `l` is `k` with the event pending, but for the interrupt controller.
abbrev pub Latched : ℕ → Kernel → Kernel → Type 0
Latched event k l = l ≡ record k {
  irq_mask_word = l.irq_mask_word;
  ports = l.ports;
  irqstate = if ltb event 240 then update k.irqstate event 1 else k.irqstate;
}

pub latch-Latched :
    (event : ℕ) (k : Kernel)
    → Ensures (when (ltb event 240) (event_latch event) k) (λ _ l. Latched event k l)
unfolding event_latch irq_mask irq_reset
latch-Latched event k = ground arith

pub latch-SameClock : (event : ℕ) (k l : Kernel) → Latched event k l → SameClock k l
latch-SameClock event k l h =
    SameClock-mem k l (ap (λ (m : Kernel). m.mem) h) (ap (λ (m : Kernel). m.int_handlers) h)
      (ap (λ (m : Kernel). m.ticks) h) (ap (λ (m : Kernel). m.pit_freq) h)
      (ap (λ (m : Kernel). m.fault_head) h) (ap (λ (m : Kernel). m.fault_tail) h)
      (ap (λ (m : Kernel). m.debug_tail) h)

Woken-Latched :
    (k l m : Kernel) (t event : ℕ) (ts ys : List ℕ)
    → Latched event l m
    → Woken k t event ts ys l
    → Woken k t event ts ys m
Woken-Latched k l m t event ts ys same w =
    let em : m.mem ≡ l.mem = ap (λ (x : Kernel). x.mem) same in
    let ev : m.evqueue ≡ l.evqueue = ap (λ (x : Kernel). x.evqueue) same in
    let eh : m.sched_head ≡ l.sched_head = ap (λ (x : Kernel). x.sched_head) same in
    let et : m.sched_tail ≡ l.sched_tail = ap (λ (x : Kernel). x.sched_tail) same in
    record {
      waiting = rw (em, ev) w.waiting;
      sched = rw (em, eh, et) w.sched;
      state = rw em w.state;
      eax = rw em w.eax;
      others = rw ev w.others;
      table = ap (λ (x : Kernel). x.thread_table) same ∙ w.table;
      active = ap (λ (x : Kernel). x.active_thread) same ∙ w.active;
      clock = SameClock-trans k l m w.clock (latch-SameClock event l m same);
      id = rw em w.id;
      link = rw em w.link;
      events = rw em w.events;
      kept = rw em w.kept;
    }

-- The state of the events after `event_send`: an interrupt's event, below 240, is pending.
abbrev pub irqstate_after : ℕ → (ℕ → ℕ) → ℕ → ℕ
irqstate_after event before = if ltb event 240 then update before event 1 else before

-- `event_send` of a valid event that threads wait for returns 0 and wakes the one that has waited
-- longest: it leaves the event's queue, has the event in `eax`, and goes to the end of the
-- scheduler's queue. The other events' queues stay. An interrupt's event is marked as pending too.
-- (A waiting thread does not run, and is not in the scheduler's queue.)
pub event_send-wake :
    (k : Kernel) (id event t : ℕ) (ts ys : List ℕ)
    → event < ev_count
    → (k.mem t).state ≢ ts_running
    → t ∉ ys
    → IsWaiting k event (t ∷ ts)
    → IsSched k ys
    → Ensures
        (event_send id event k)
        (λ r l. (r ≡ 0) × Woken k t event ts ys l × (l.irqstate ≡ irqstate_after event k.irqstate))
unfolding event_send
event_send-wake k id event t ts ys valid idle_state out q s =
    let front : (k.evqueue event).front_thread ≡ t = q.chain.0 in
    let some_front : ((k.evqueue event).front_thread == null) ≡ false =
      ground (arith, front, q.chain.1) in
    rw
      (
        (let small : leb (2 ^ 31) event ≡ false = ground arith in small),
        (let small : leb ev_count event ≡ false = ground arith in small),
        some_front,
        front,
      )
      (Ensures-bind (λ _ l. Woken k t event ts ys l × (l.irqstate ≡ k.irqstate)) _
        (event_deliver t event k) _ (deliver-Woken k t event ts ys idle_state out q s)
        (λ _ l w.
          Ensures-bind (λ _ m. Latched event l m) _ (when (ltb event 240) (event_latch event) l) _
            (latch-Latched event l)
            (λ _ m same.
              (refl, Woken-Latched k l m t event ts ys same w.0, rw same (ground (arith, w.1))))))

pub Latched-IsSched :
    (event : ℕ) (k l : Kernel) (ys : List ℕ) → Latched event k l → IsSched k ys → IsSched l ys
Latched-IsSched event k l ys same q =
    let em : l.mem ≡ k.mem = ap (λ (x : Kernel). x.mem) same in
    let eh : l.sched_head ≡ k.sched_head = ap (λ (x : Kernel). x.sched_head) same in
    let et : l.sched_tail ≡ k.sched_tail = ap (λ (x : Kernel). x.sched_tail) same in
    rw (em, eh, et) q

pub send_unheard :
    (k : Kernel) (sender event : ℕ)
    → event < ev_count
    → IsWaiting k event []
    → Ensures (event_send sender event k) (λ _ l. Latched event k l)
unfolding event_send
send_unheard k sender event valid q =
    rw
      (
        (let small : leb (2 ^ 31) event ≡ false = ground arith in small),
        (let small : leb ev_count event ≡ false = ground arith in small),
        (let empty : ((k.evqueue event).front_thread == null) ≡ true = ground (arith, q.chain) in
            empty),
      )
      (Ensures-bind (λ _ l. Latched event k l) _ (when (ltb event 240) (event_latch event) k) _
        (latch-Latched event k) (λ _ l same. same))

pub event_wait-pending :
    (k : Kernel) (id event t : ℕ)
    → Names k id t
    → event < ev_count
    → k.irqstate event ≢ 0
    → event_wait id event k ≡ (requeue t >> pure 0) k
unfolding event_wait wait_pending
event_wait-pending k id event t v valid pending =
    ground (arith, thread_get-entry k id t v, v.ne_null)

-- An interrupt that finds no thread waiting is not lost: a thread that waits for it later is
-- queued to run at once, behind `ys`, and does not enter the event's queue. (IRQ events are those
-- below 240.)
pub event_send-event_wait :
    (k : Kernel) (sender id event t : ℕ) (ys : List ℕ)
    → event < 240
    → Names k id t
    → t ∉ ys
    → IsWaiting k event []
    → IsSched k ys
    → Ensures ((event_send sender event >> event_wait id event) k) (λ r l.
      (r ≡ 0) × IsSched l (ys ++ t ∷ []) × ((l.mem t).state ≡ ts_queued) × (l.evqueue ≡ k.evqueue))
event_send-event_wait k sender id event t ys valid v out q s =
    Ensures-bind (λ _ l. Latched event k l) _ (event_send sender event k) _
      (send_unheard k sender event (omega (arith, valid)) q)
      (λ _ l h.
        let et : l.thread_table ≡ k.thread_table = ap (λ (m : Kernel). m.thread_table) h in
        let v' : Names l id t = record {
          valid = v.valid;
          entry = rw et v.entry;
          ne_null = v.ne_null;
        } in
        let pending : l.irqstate event ≢ 0 = rw h (ground arith) in
        rw (event_wait-pending l id event t v' (omega arith) pending) (
          Ensures-bind (λ _. Requeued l t ys) _ (requeue t l) _
            (requeue-Requeued l t ys v.ne_null out (Latched-IsSched event k l ys h s))
            (λ _ m r. (refl, r.sched, r.state, rw r.events (ap (λ (m : Kernel). m.evqueue) h)))))
