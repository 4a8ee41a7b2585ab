-- ===== src/Thread/Event/Fifo.antt =====
-- `event_wait` of src/kernel/thread.c, and the lists that the event queues stand for.
use pinion.Base.{
  ap, sym, subst, ◌∙◌, mem-ne, last_or, last_or-mem, ℕ, ◌<◌, ◌≡◌, refl, ◌≢◌, List, [], ◌∷◌, ◌++◌,
  arith, ok, Ensures, Ensures-bind, ◌==◌, if◌then◌else◌, update, ==_ne, ==_refl, ◌∉◌, pure, ◌>>◌,
}
use pinion.Vm.{null}
use pinion.Kernel.{Thread, Kernel, edit, thread_count, ev_count, ts_waiting}
use pinion.Thread.Links.{IsQueue, IsQueue-snoc, IsQueue-same}
use pinion.Thread.Clock.{SameClock, SameClock-trans, SameClock-mem}
use pinion.Thread.Table.{thread_get, thread_save}
use pinion.Thread.Table.Load.{SameButCpu, thread_save-active}
use pinion.Thread.Sched.Fifo.{IsSched, next_of}
use pinion.Thread.Event.{event_wait, wait_queue}

abbrev pub evlink_of : Kernel → ℕ → ℕ
evlink_of k p = (k.mem p).next_evqueue

-- The queue of `event` holds the threads `xs`, the first to be woken first.
abbrev pub IsWaiting : Kernel → ℕ → List ℕ → Type 0
IsWaiting k event xs =
    IsQueue (evlink_of k) (k.evqueue event).front_thread (k.evqueue event).back_thread xs

-- `id` is the thread `t`.
pub record Names (k : Kernel) (id t : ℕ) : Type 0 where
  pub valid : id < thread_count
  pub entry : k.thread_table id ≡ t
  pub ne_null : t ≢ null

pub thread_get-entry : (k : Kernel) (id t : ℕ) → Names k id t → thread_get id k ≡ ok t k
unfolding thread_get
thread_get-entry k id t v = ground (arith, v.valid, v.entry)

-- The state in which `wait_queue` saves the thread.
abbrev linked : ℕ → ℕ → Kernel → Kernel
linked t event k =
    let q = k.evqueue event in
    let m =
      if q.back_thread == null
      then k.mem
      else update k.mem q.back_thread (record (k.mem q.back_thread) { next_evqueue = t }) in
    record k {
      mem = update m t (record (m t) { next_evqueue = null; event = event });
      evqueue = update k.evqueue event (record {
        front_thread = if q.back_thread == null then t else q.front_thread;
        back_thread = t;
      });
    }

linked-IsWaiting :
    (t event : ℕ) (k : Kernel) (xs : List ℕ)
    → t ≢ null
    → t ∉ xs
    → IsWaiting k event xs
    → IsWaiting (linked t event k) event (xs ++ t ∷ [])
linked-IsWaiting t event k xs n out q =
    let same : (linked t event k).evqueue event ≡ record {
      front_thread =
          if (k.evqueue event).back_thread == null then t else (k.evqueue event).front_thread;
      back_thread = t;
    } =
      rw (==_refl event) in
    rw same (
      IsQueue-snoc (evlink_of k) (evlink_of (linked t event k)) (k.evqueue event).front_thread
        (k.evqueue event).back_thread _ t xs n out refl (ground arith) (λ full apart. ground arith)
        (λ c ne off. ground arith) q)

linked-IsSched :
    (t event : ℕ) (k : Kernel) (ys : List ℕ) → IsSched k ys → IsSched (linked t event k) ys
linked-IsSched t event k ys q =
    IsQueue-same (next_of k) _ k.sched_head k.sched_tail ys (λ a i. ground arith) q

wait_queue-steps :
    (t event : ℕ) (k : Kernel)
    → t ≢ null
    → wait_queue t event k
      ≡ (thread_save t >> (edit t (λ s. record s { state = ts_waiting }) >> pure 0))
          (linked t event k)
unfolding wait_queue edit
wait_queue-steps t event k n = ground arith

-- `t` waits for `event` behind `xs`, the scheduler's queue is `ys`, and the queues of the other
-- events, the table, the pending events, and the states and IDs of the other threads are as in `k`.
pub record Waits (k : Kernel) (t event : ℕ) (xs ys : List ℕ) (l : Kernel) : Type 0 where
  pub waiting : IsWaiting l event (xs ++ t ∷ [])
  pub sched : IsSched l ys
  pub state : (l.mem t).state ≡ ts_waiting
  pub event_of : (l.mem t).event ≡ event
  pub others : (e : ℕ) → e ≢ event → l.evqueue e ≡ k.evqueue e
  pub kept : (p : ℕ) → p ≢ t → (l.mem p).state ≡ (k.mem p).state
  pub table : l.thread_table ≡ k.thread_table
  pub irqstate : l.irqstate ≡ k.irqstate
  pub clock : SameClock k l
  pub id : (p : ℕ) → (l.mem p).id ≡ (k.mem p).id
  pub events : (p : ℕ) → p ≢ t → (l.mem p).event ≡ (k.mem p).event
  pub link : (p : ℕ) → p ≢ t → p ∉ xs → p ≢ null → evlink_of l p ≡ evlink_of k p

-- The last of a queue is the only thread outside `t` that a link is written to.
linked-link :
    (t event : ℕ) (k : Kernel) (xs : List ℕ) (p : ℕ)
    → IsWaiting k event xs
    → p ≢ t
    → p ∉ xs
    → p ≢ null
    → evlink_of (linked t event k) p ≡ evlink_of k p
linked-link t event k [] p q ne out n = ground (arith, q.last)
linked-link t event k (x ∷ xs) p q ne out n =
    let back : p ≢ (k.evqueue event).back_thread =
      subst (λ b. p ≢ b) (sym q.last) (mem-ne p (last_or x xs) (x ∷ xs) out (last_or-mem x xs)) in
    ground arith

linked-SameClock : (t event : ℕ) (k : Kernel) → SameClock k (linked t event k)
linked-SameClock t event k = record {
  handlers = refl;
  ticks = refl;
  freq = refl;
  flags = λ p. ground arith;
  num = λ p. ground arith;
  fault_head = refl;
  fault_tail = refl;
  debug_tail = refl;
  cs = λ p. ground arith;
  fault_link = λ p. ground arith;
}

cpu-SameClock : (k l : Kernel) → SameButCpu k l → SameClock k l
cpu-SameClock k l h =
    SameClock-mem k l (ap (λ (m : Kernel). m.mem) h) (ap (λ (m : Kernel). m.int_handlers) h)
      (ap (λ (m : Kernel). m.ticks) h) (ap (λ (m : Kernel). m.pit_freq) h)
      (ap (λ (m : Kernel). m.fault_head) h) (ap (λ (m : Kernel). m.fault_tail) h)
      (ap (λ (m : Kernel). m.debug_tail) h)

state-SameClock :
    (k : Kernel) (t s : ℕ)
    → SameClock k (record k { mem = update k.mem t (record (k.mem t) { state = s }) })
state-SameClock k t s = record {
  handlers = refl;
  ticks = refl;
  freq = refl;
  flags = λ p. ground arith;
  num = λ p. ground arith;
  fault_head = refl;
  fault_tail = refl;
  debug_tail = refl;
  cs = λ p. ground arith;
  fault_link = λ p. ground arith;
}

after_save :
    (k l : Kernel) (t event : ℕ) (xs ys : List ℕ)
    → t ≢ null
    → t ∉ xs
    → IsWaiting k event xs
    → IsSched k ys
    → SameButCpu (linked t event k) l
    → Waits k t event xs ys
        (record l { mem = update l.mem t (record (l.mem t) { state = ts_waiting }) })
after_save k l t event xs ys n out q s same =
    let em : l.mem ≡ (linked t event k).mem = ap (λ (m : Kernel). m.mem) same in
    let ev : l.evqueue ≡ (linked t event k).evqueue = ap (λ (m : Kernel). m.evqueue) same in
    let eh : l.sched_head ≡ k.sched_head = ap (λ (m : Kernel). m.sched_head) same in
    let et : l.sched_tail ≡ k.sched_tail = ap (λ (m : Kernel). m.sched_tail) same in
    record {
      waiting =
          rw (em, ev)
            (IsQueue-same (evlink_of (linked t event k)) _ _ _ (xs ++ t ∷ []) (λ a i. ground arith)
              (linked-IsWaiting t event k xs n out q));
      sched =
          rw (em, eh, et)
            (IsQueue-same (next_of (linked t event k)) _ k.sched_head k.sched_tail ys
              (λ a i. ground arith) (linked-IsSched t event k ys s));
      state = ground arith;
      event_of = rw em (ground arith);
      others = λ e ne. rw ev (ground arith);
      kept = λ p ne. rw em (ground arith);
      table = ap (λ (m : Kernel). m.thread_table) same;
      irqstate = ap (λ (m : Kernel). m.irqstate) same;
      clock = SameClock-trans k (linked t event k) _ (linked-SameClock t event k) (
          SameClock-trans (linked t event k) l _ (cpu-SameClock (linked t event k) l same)
            (state-SameClock l t ts_waiting));
      id = λ p. rw em (ground arith);
      events = λ p ne. rw em (ground arith);
      link = λ p ne off m.
          let here : (update l.mem t (record (l.mem t) { state = ts_waiting }) p).next_evqueue
              ≡ (l.mem p).next_evqueue =
            ground arith in
          here
          ∙ ap (λ (f : ℕ → Thread). (f p).next_evqueue) em
          ∙ linked-link t event k xs p q ne off m;
    }

event_wait-queues :
    (k : Kernel) (id event t : ℕ)
    → Names k id t
    → event < ev_count
    → k.irqstate event ≡ 0
    → event_wait id event k ≡ wait_queue t event k
unfolding event_wait
event_wait-queues k id event t v valid clear = ground (arith, thread_get-entry k id t v, v.ne_null)

-- `event_wait` of a thread on a valid event that is not pending returns 0 and puts the thread, in
-- state TS_WAITING, at the end of that event's queue. No thread is active afterwards, and the
-- scheduler's queue, the table of threads, the pending events, the other events' queues and the other
-- threads' states stay as they are.
pub event_wait-enqueue :
    (k : Kernel) (id event t : ℕ) (xs ys : List ℕ)
    → Names k id t
    → event < ev_count
    → k.irqstate event ≡ 0
    → t ∉ xs
    → IsWaiting k event xs
    → IsSched k ys
    → Ensures
        (event_wait id event k)
        (λ r l. (r ≡ 0) × (l.active_thread ≡ null) × Waits k t event xs ys l)
unfolding edit
event_wait-enqueue k id event t xs ys v valid clear out q s =
    let m = linked t event k in
    rw (event_wait-queues k id event t v valid clear, wait_queue-steps t event k v.ne_null)
      (Ensures-bind (λ r l. (l.active_thread ≡ null) × SameButCpu m l) _ (thread_save t m) _
        (thread_save-active t m)
        (λ r l h.
          rw (==_ne t null v.ne_null)
            (refl, h.0, after_save k l t event xs ys v.ne_null out q s h.1)))
