-- ===== src/Interrupt/Entry/Faults.antt =====
-- A page fault through `int_handler` of src/kernel/interrupt.c.
use pinion.Base.{
  ℕ, ◌+◌, ◌≡◌, ap, ◌∙◌, arith, List, [], ◌∷◌, ◌++◌, ◌==◌, true, update, ◌≢◌, bit_and, Ensures,
  Ensures-bind, Ensures-mono,
}
use pinion.Kernel.{Kernel, tf_user}
use pinion.Interrupt.{int_handler}
use pinion.Interrupt.Model.{back, run_next, Sane}
use pinion.Interrupt.Wakeups.Model.{Machine, Attended}
use pinion.Interrupt.Wakeups.Calls.{FollowsFrom}
use pinion.Interrupt.Entry.Model.{
  page_fault, Clocked, running_of, model_trap, TrapPossible, Clockwork, Tracks,
}
use pinion.Interrupt.Entry.Kept.{FollowsFrom-Tracks}
use pinion.Interrupt.Entry.Fault.{Suspended, fault_page-Suspended}
use pinion.Thread.Links.{IsQueue-same}
use pinion.Thread.Event.Fifo.{evlink_of}
use pinion.Interrupt.Sane.{paused-Idle}
use pinion.Interrupt.{fault_page}
use pinion.Interrupt.Wakeups.Wait.{waiter-not-running}
use pinion.Interrupt.Wakeups.Calls.{back-FollowsAll}
use pinion.Interrupt.Entry.Handler.{int_handler-page_fault}

Suspended-Attended :
    (m : Machine) (k l : Kernel) (xs ys : List ℕ)
    → Sane m.base k
    → Attended m k
    → Suspended k m.base.running xs ys l
    → Attended m l
Suspended-Attended m k l xs ys s a h = record {
  queues = λ n small. rw h.evqueue (
      IsQueue-same (evlink_of k) (evlink_of l) _ _ (m.waiters n) (λ p i. h.link p)
        (a.queues n small));
  members = λ n p small i. (
    h.kept p (waiter-not-running m k n p a s small i) ∙ (a.members n p small i).0,
    h.event p ∙ (a.members n p small i).1,
  );
  pending = λ n. ap (λ (f : ℕ → ℕ). f n == 0) h.irqstate ∙ a.pending n;
  ids = λ p. h.id p ∙ a.ids p;
}

Suspended-Clockwork :
    (c : Clocked) (t : ℕ) (k l : Kernel) (ys : List ℕ)
    → Clockwork c k
    → Suspended k t c.faulty ys l
    → Clockwork (record c { faulty = c.faulty ++ t ∷ [] }) l
Suspended-Clockwork c t k l ys w h = record {
  ticks = h.ticks ∙ w.ticks;
  freq = h.freq ∙ w.freq;
  user = λ p. ap (λ (a : ℕ). bit_and a tf_user == 0) (h.flags p) ∙ w.user p;
  rings = λ p. ap (λ (a : ℕ). bit_and a 0x3) (h.cs p) ∙ w.rings p;
  faulty = h.faulty;
  clear = h.clear;
  no_debugger = h.debug_tail ∙ w.no_debugger;
  faults_of = ap (λ f. f 0x0E) h.handlers ∙ w.faults_of;
  timer_of = ap (λ f. f 32) h.handlers ∙ w.timer_of;
  calls_of = ap (λ f. f 0x81) h.handlers ∙ w.calls_of;
  irqs_of = λ n low high. ap (λ f. f (32 + n)) h.handlers ∙ w.irqs_of n low high;
}

pub page_fault-Tracks :
    (addr : ℕ) (c : Clocked) (k : Kernel)
    → TrapPossible (page_fault addr) c
    → Sane c.machine.base k
    → Attended c.machine k
    → Clockwork c k
    → (k.mem (running_of c)).num ≡ 0x0E
    → Ensures (int_handler (running_of c) k) (Tracks (model_trap (page_fault addr) c))
page_fault-Tracks addr c k p s a w num =
    let t = running_of c in
    let m = c.machine in
    let b = record m.base { paused = update m.base.paused t true } in
    let c' : Clocked = record c { faulty = c.faulty ++ t ∷ [] } in
    let user : bit_and (k.mem t).cs 0x3 ≢ 0 = (let ring = w.rings t in ground (arith, ring, p.0)) in
    rw (int_handler-page_fault t k s.ne_null num w.faults_of) (
      Ensures-bind (λ _. Suspended k t c.faulty m.base.queue) _ (fault_page t k) _
        (fault_page-Suspended k t c.faulty m.base.queue s.ne_null p.1 user w.no_debugger w.clear
          w.faulty s.waiting.sched)
        (λ _ l h.
          Ensures-mono (FollowsFrom l (record m { base = run_next b.queue b })) _ (back l)
            (back-FollowsAll m b l p.2
              (paused-Idle m.base k l s h.active h.table h.sched h.state h.kept)
              (Suspended-Attended m k l c.faulty m.base.queue s a h))
            (λ r x j.
              FollowsFrom-Tracks c' (record m { base = run_next b.queue b }) l x r
                (Suspended-Clockwork c t k l m.base.queue w h) j)))
