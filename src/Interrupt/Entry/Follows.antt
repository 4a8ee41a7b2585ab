-- ===== src/Interrupt/Entry/Follows.antt =====
-- `int_handler` of src/kernel/interrupt.c against the machine of Interrupt.Entry.Model.
use pinion.Base.{
  ℕ, ◌+◌, ◌≡◌, refl, sym, ap, ◌∙◌, subst, ◌<◌, ◌≤◌, arith, List, [], ◌∷◌, bit_and, Ensures,
  Ensures-bind, Ensures-mono,
}
use pinion.Kernel.{Thread, Kernel, minus_one, tf_user}
use pinion.Irq.{irq_int_size}
use pinion.Thread.Clock.{SameClock-trans}
use pinion.Thread.Event.{event_send}
use pinion.Kcall.Dispatch.{decode}
use pinion.Interrupt.{int_handler, irq_int_base}
use pinion.Interrupt.Model.{back, Sane}
use pinion.Interrupt.Wakeups.Model.{Attended, signal, perform_step, model_step}
use pinion.Interrupt.Wakeups.Calls.{FollowsFrom, stay-FollowsAll}
use pinion.Interrupt.Wakeups.Follows.{perform_step-FollowsAll, event_send-Attended}
use pinion.Interrupt.Entry.Model.{
  Request, number, argument, step_of, Trap, clock, irq, page_fault, request, trap_regs, cpu_state,
  take_trap, run_traps, Clocked, running_of, model_trap, model_traps, TrapPossible,
  AllTrapsPossible, Clockwork, Tracks,
}
use pinion.Interrupt.Entry.Kept.{
  trap_regs-Neutral, edited-Sane, edited-Attended, edited-Clockwork, FollowsFrom-Tracks,
}
use pinion.Interrupt.Entry.Kept.{cpu_state-Sane, cpu_state-Attended, cpu_state-Clockwork}
use pinion.Interrupt.Entry.Clock.{clock-Tracks}
use pinion.Interrupt.Entry.Faults.{page_fault-Tracks}
use pinion.Interrupt.Entry.Ticks.{Signalled}
use pinion.Interrupt.Entry.Handler.{
  entered, take_trap-steps, entered_regs, int_handler-call, int_handler-irq, case_of,
  decode-case_of, perform-step_of,
}

irq-Tracks :
    (i : ℕ) (c : Clocked) (k : Kernel)
    → 1 ≤ i
    → i < irq_int_size
    → Sane c.machine.base k
    → Attended c.machine k
    → Clockwork c k
    → (k.mem (running_of c)).num ≡ irq_int_base + i
    → Ensures (int_handler (running_of c) k) (Tracks (model_trap (irq i) c))
irq-Tracks i c k low high s a w num =
    let m = c.machine in
    let m' = model_step (signal i) m in
    int_handler-irq (running_of c) k i s.ne_null low high num w.irqs_of
      (Tracks (model_trap (irq i) c))
      (Ensures-mono (λ _. Signalled k m') _ (event_send minus_one i k)
        (event_send-Attended m k i (m.waiters i) refl (omega (arith, high)) s a)
        (λ _ l j. (
          j.2,
          Ensures-mono (FollowsFrom l m') _ (back l) (stay-FollowsAll m' l j.0 j.1)
              (λ r x g. FollowsFrom-Tracks c m' k x r w (g.0, SameClock-trans k l x j.2 g.1)),
        )))

request-Tracks :
    (q : Request) (c : Clocked) (k : Kernel)
    → TrapPossible (request q) c
    → Sane c.machine.base k
    → Attended c.machine k
    → Clockwork c k
    → (k.mem (running_of c)).num ≡ 0x81
    → (k.mem (running_of c)).eax ≡ number q
    → (k.mem (running_of c)).ebx ≡ argument q
    → Ensures (int_handler (running_of c) k) (Tracks (model_trap (request q) c))
request-Tracks q c k p s a w num eax ebx =
    let t = running_of c in
    let m = c.machine in
    let system : bit_and (k.mem t).flags tf_user ≡ 0 =
      (let mode = w.user t in ground (arith, mode, p.1)) in
    rw
      (
        int_handler-call t k (case_of q) s.ne_null num w.calls_of system
            (ap decode eax ∙ decode-case_of q),
        perform-step_of q t k s.ne_null ebx,
      )
      (Ensures-mono (FollowsFrom k (model_step (step_of q) m)) _ (perform_step (step_of q) t k)
        (perform_step-FollowsAll (step_of q) m k p.0 s a)
        (λ x l j. FollowsFrom-Tracks c (model_step (step_of q) m) k l x w j))

-- One interrupt, in the state in which `int_handler` gets it.
entered-Tracks :
    (trap : Trap) (c : Clocked) (k : Kernel)
    → TrapPossible trap c
    → Sane c.machine.base k
    → Attended c.machine k
    → Clockwork c k
    → (s : Thread) → (k.mem (running_of c)) ≡ trap_regs trap s
    → Ensures (int_handler (running_of c) k) (Tracks (model_trap trap c))
entered-Tracks clock c k p s a w o e = clock-Tracks c k s a w (ap (λ (x : Thread). x.num) e)
entered-Tracks (irq i) c k p s a w o e =
    irq-Tracks i c k p.0 p.1 s a w (ap (λ (x : Thread). x.num) e)
entered-Tracks (page_fault addr) c k p s a w o e =
    page_fault-Tracks addr c k p s a w (ap (λ (x : Thread). x.num) e)
entered-Tracks (request q) c k p s a w o e =
    request-Tracks q c k p s a w (ap (λ (x : Thread). x.num) e) (ap (λ (x : Thread). x.eax) e)
      (ap (λ (x : Thread). x.ebx) e)

take_trap-Tracks :
    (trap : Trap) (c : Clocked) (k : Kernel)
    → TrapPossible trap c
    → Tracks c (running_of c) k
    → Ensures (take_trap trap (running_of c) k) (Tracks (model_trap trap c))
take_trap-Tracks trap c k p h =
    let t = running_of c in
    let f = trap_regs trap in
    let keeps = trap_regs-Neutral trap in
    let k' = cpu_state trap k in
    rw (take_trap-steps trap t k h.sane.ne_null) (
      entered-Tracks trap c (entered trap t k) p
        (edited-Sane c.machine.base f t k' keeps (cpu_state-Sane trap c.machine.base k h.sane))
        (edited-Attended c.machine f t k' keeps (cpu_state-Attended trap c.machine k h.attended))
        (edited-Clockwork c f t k' keeps (cpu_state-Clockwork trap c k h.clockwork)) (k'.mem t)
        (entered_regs trap t k))

-- From a state in which just the active thread is in TS_RUNNING, just the threads of the
-- scheduler's queue are in TS_QUEUED, the threads of each event's queue wait for that event, the
-- timer, page faults and the kernel calls have their handlers and the other devices none, no
-- debugger waits, and the links of the fault queue are clear outside of it, any sequence of
-- interrupts that `int_handler` gets ends in such a state again: with the thread running, the
-- scheduler's, the events' and the fault queue in the order, the threads paused, the events pending
-- and the ticks counted that the same interrupts give in the machine. They are ticks of the timer,
-- which send the events of virtual timers and preempt the thread; IRQs 1 to 15, which send their
-- event; page faults outside the kernel of a thread that is not in the fault queue, while another
-- one is queued, which pause it and put it at the end of the fault queue; and these calls of a
-- thread that is not in user mode: to yield; to pause itself while another one is queued; to pause
-- a queued thread, of a queue of at most THREAD_COUNT; to resume a paused one; to wait for a valid
-- event, with an ID that names it, while another one is queued or the event is pending; and to
-- reset an event.
pub run_traps-Tracks :
    (traps : List Trap) (c : Clocked) (k : Kernel)
    → AllTrapsPossible traps c
    → Tracks c (running_of c) k
    → Ensures (run_traps traps (running_of c) k) (Tracks (model_traps traps c))
unfolding run_traps
run_traps-Tracks [] c k p h = h
run_traps-Tracks (trap ∷ traps) c k p h =
    Ensures-bind (Tracks (model_trap trap c)) _ (take_trap trap (running_of c) k) _
      (take_trap-Tracks trap c k p.0 h)
      (λ r l j.
        subst (λ t. Ensures (run_traps traps t l) (Tracks (model_traps traps (model_trap trap c))))
          (sym j.running)
          (run_traps-Tracks traps (model_trap trap c) l p.1
            (subst (λ t. Tracks (model_trap trap c) t l) j.running j)))
