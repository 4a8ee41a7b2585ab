-- ===== src/Interrupt/Wakeups/Kept.antt =====
-- The scheduling of src/kernel/interrupt.c and src/kernel/kcall.c leaves those that wait for an event
-- alone.
use pinion.Base.{
  ℕ, ◌≡◌, refl, sym, ap, subst, ◌≢◌, ◌≤◌, arith, List, [], ◌∷◌, ◌++◌, ◌∈◌, ◌∉◌, length, Ensures,
  Ensures-bind, Ensures-mono, ==_ne, ◌>>◌, erase, Run, and_then, pure,
}
use pinion.Vm.{null}
use pinion.Kernel.{
  Thread, Kernel, edit, load, thread_count, minus_one, ts_waiting, ts_queued, ts_running, ts_paused,
}
use pinion.Thread.Clock.{SameClock-mem}
use pinion.Thread.Table.{thread_save, thread_load}
use pinion.Thread.Table.Load.{SameButCpu, thread_save-active, thread_load-active}
use pinion.Thread.Sched.{schedule_push, schedule_remv}
use pinion.Thread.Sched.Fifo.{IsSched, SameButSched, schedule_push-enqueue}
use pinion.Thread.Sched.Remove.{schedule_remv-erase, remv-at-head, headless}
use pinion.Thread.Event.Fifo.{Names}
use pinion.Thread.Event.Kept.{
  SameEvents, SameEvents-trans, SameEvents-mem, SameButCpu-SameEvents, SameButSched-SameEvents,
  state-SameEvents, requeue-SameEvents,
}
use pinion.Kcall.Threads.{set_eax, set_state, kcall_pause, kcall_resume}
use pinion.Kcall.Threads.Roundtrip.{kcall_pause-target, pause_target-removes, resume_target-pushes}
use pinion.Kcall.Threads.Rest.{pause_target-saves, kcall_pause-saves}
use pinion.Interrupt.{preempt, switch}

settled-SameEvents :
    (k : Kernel) (image target s : ℕ)
    → image ≢ null
    → target ≢ null
    → (k.mem target).state ≢ ts_waiting
    → Ensures ((set_state target s >> set_eax image 0) k) (λ _. SameEvents k)
unfolding set_state set_eax edit
settled-SameEvents k image target s n m off = rw (==_ne target null m) (
    rw (==_ne image null n) (record {
      evqueue = refl;
      irqstate = refl;
      link = λ p. ground arith;
      event = λ p. ground arith;
      id = λ p. ground arith;
      clock = record {
        handlers = refl;
        ticks = refl;
        freq = refl;
        flags = λ p. ground arith;
        num = λ p. ground arith;
        fault_head = refl;
        fault_tail = refl;
        debug_tail = refl;
        cs = λ p. ground arith;
        fault_link = λ p. ground arith;
      };
      waiting = λ p w. ground arith;
    }))

-- A step that keeps the events, and after it `target` gets its state and the caller 0.
settled_after :
    {A : Type 0} (k : Kernel) (image target s : ℕ) (r : Run Kernel A)
    → image ≢ null
    → target ≢ null
    → Ensures r (λ _ l. SameEvents k l × ((l.mem target).state ≢ ts_waiting))
    → Ensures (and_then r (λ _. set_state target s >> set_eax image 0)) (λ _. SameEvents k)
settled_after k image target s r n m h =
    Ensures-bind (λ _ l. SameEvents k l × ((l.mem target).state ≢ ts_waiting)) _ r _ h
      (λ _ l g.
        Ensures-mono (λ _. SameEvents l) _ ((set_state target s >> set_eax image 0) l)
          (settled-SameEvents l image target s n m g.1) (λ _ x j. SameEvents-trans k l x g.0 j))

pub kcall_pause-queued :
    (k : Kernel) (image target : ℕ) (xs : List ℕ)
    → image ≢ null
    → Names k (k.mem image).ebx target
    → (k.mem target).state ≡ ts_queued
    → length xs ≤ thread_count
    → target ∈ xs
    → IsSched k xs
    → Ensures (kcall_pause image k) (λ _. SameEvents k)
kcall_pause-queued k image target xs n v queued few i q =
    rw (kcall_pause-target k image target n v, pause_target-removes k image target v.ne_null queued)
      (settled_after k image target ts_paused (schedule_remv target k) n v.ne_null (
        Ensures-mono (λ r l. (r ≡ 0) × IsSched l (erase target xs) × SameButSched k l) _
          (schedule_remv target k) (schedule_remv-erase target k xs few i q)
          (λ _ l h. (
            SameButSched-SameEvents k l h.2,
            (let same : (l.mem target).state ≡ (k.mem target).state =
                  ap (λ (t : Thread). t.state) (h.2.1 target) in
                ground (arith, same, queued)),
          ))))

pub kcall_resume-paused :
    (k : Kernel) (image target : ℕ) (xs : List ℕ)
    → image ≢ null
    → Names k (k.mem image).ebx target
    → (k.mem target).state ≡ ts_paused
    → target ∉ xs
    → IsSched k xs
    → Ensures (kcall_resume image k) (λ _. SameEvents k)
kcall_resume-paused k image target xs n v paused out q =
    rw (resume_target-pushes k image target n v paused) (
      settled_after k image target ts_queued (schedule_push target k) n v.ne_null (
        Ensures-mono (λ r l. (r ≡ 0) × IsSched l (xs ++ target ∷ []) × SameButSched k l) _
          (schedule_push target k) (schedule_push-enqueue target k xs v.ne_null out q)
          (λ _ l h. (
            SameButSched-SameEvents k l h.2,
            (let same : (l.mem target).state ≡ (k.mem target).state =
                  ap (λ (t : Thread). t.state) (h.2.1 target) in
                ground (arith, same, paused)),
          ))))

pub kcall_pause_self :
    (k : Kernel) (t : ℕ)
    → t ≢ null
    → (k.mem t).ebx ≡ minus_one
    → (k.mem t).state ≡ ts_running
    → Ensures (kcall_pause t k) (λ _. SameEvents k)
kcall_pause_self k t n self running =
    rw (kcall_pause-saves k t n self, pause_target-saves k t n running)
      (settled_after k t t ts_paused (thread_save t k) n n (
        Ensures-mono (λ r l. (l.active_thread ≡ null) × SameButCpu k l) _ (thread_save t k)
          (thread_save-active t k)
          (λ _ l h. (
            SameButCpu-SameEvents k l h.1,
            (let same : (l.mem t).state ≡ (k.mem t).state =
                  ap (λ (m : Kernel). (m.mem t).state) h.1 in
                ground (arith, same, running)),
          ))))

pub preempt-SameEvents :
    (k : Kernel) (t : ℕ)
    → t ≢ null
    → (k.mem t).state ≡ ts_running
    → Ensures (preempt t k) (λ _. SameEvents k)
unfolding preempt load
preempt-SameEvents k t n running =
    rw (==_ne t null n, running) (requeue-SameEvents k t n (ground (arith, running)))

run-SameEvents :
    (k : Kernel) (x : ℕ)
    → x ≢ null
    → (k.mem x).state ≢ ts_waiting
    → Ensures
        ((thread_load x >> (edit x (λ t. record t { state = ts_running }) >> pure x)) k)
        (λ _. SameEvents k)
unfolding edit
run-SameEvents k x n off =
    Ensures-bind (λ r l. (l.active_thread ≡ x) × SameButCpu k l) _ (thread_load x k) _
      (thread_load-active x k n)
      (λ r l h.
        let state : (l.mem x).state ≡ (k.mem x).state = ap (λ (m : Kernel). (m.mem x).state) h.1 in
        rw (==_ne x null n) (
          SameEvents-trans k l _ (SameButCpu-SameEvents k l h.1)
            (state-SameEvents l x ts_running (ground (arith, state, off)))))

switch-from_head :
    (k : Kernel) (xs : List ℕ)
    → IsSched k (k.sched_head ∷ xs)
    → (k.mem k.sched_head).state ≢ ts_waiting
    → Ensures (switch k) (λ _. SameEvents k)
unfolding switch
switch-from_head k xs q off =
    rw (==_ne k.sched_head null q.chain.1, remv-at-head k.sched_head k k.sched_head xs refl q)
      (Ensures-mono (λ _. SameEvents (headless k)) _ _
        (run-SameEvents (headless k) k.sched_head q.chain.1 off)
        (λ _ l h.
          SameEvents-trans k (headless k) l
            (SameEvents-mem k (headless k) refl refl refl
              (SameClock-mem k (headless k) refl refl refl refl refl refl refl))
            h))

pub switch-SameEvents :
    (k : Kernel) (x : ℕ) (xs : List ℕ)
    → IsSched k (x ∷ xs)
    → (k.mem x).state ≢ ts_waiting
    → Ensures (switch k) (λ _. SameEvents k)
switch-SameEvents k x xs q off =
    let e : k.sched_head ≡ x = q.chain.0 in
    switch-from_head k xs (subst (λ y. IsSched k (y ∷ xs)) (sym e) q)
      (subst (λ y. (k.mem y).state ≢ ts_waiting) (sym e) off)
