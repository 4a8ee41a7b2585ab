-- ===== src/Interrupt/Entry/Handler.antt =====
-- What `int_handler` of src/kernel/interrupt.c does for each kind of interrupt.
use pinion.Base.{
  ℕ, ◌+◌, ◌-◌, ◌%◌, ◌^◌, ◌≡◌, refl, sym, ap, ◌∙◌, ◌≢◌, ◌<◌, ◌≤◌, arith, ◌∷◌, true, false, bit_and,
  Ensures, Ensures-bind, ◌==◌, ==_ne, leb, ltb, ◌&&◌, update_self, pure, ◌>>◌, and_then_assoc,
  and_then, fun_ext, Run,
}
use pinion.Vm.{null, u32}
use pinion.Kernel.{
  Thread, Kernel, KCmd, load, edit, outb, no_handler, kcalls, page_faults, timer, minus_one,
  tf_user,
}
use pinion.Irq.{irq_reset, irq_int_size}
use pinion.Thread.Clock.{SameClock}
use pinion.Thread.Event.{event_send}
use pinion.Kcall.Threads.{kcall_pause, kcall_resume, kcall_wait, kcall_reset}
use pinion.Kcall.Dispatch.{kcall, perform, decode, Call}
use pinion.Interrupt.{
  int_handler, timer_handler, fault_page, acknowledge, call_handler, preempt, vtimer_loop,
  timer_bits, irq_int_base,
}
use pinion.Interrupt.Model.{back, call_with, perform_event}
use pinion.Interrupt.Follows.{call_with-steps}
use pinion.Interrupt.Wakeups.Model.{perform_step}
use pinion.Interrupt.Entry.Model.{
  Request, yields, rests, pauses, resumes, waits, resets, number, argument, step_of, Trap,
  trap_regs, cpu_state, take_trap,
}
use pinion.Interrupt.Entry.Kept.{edited, with_ebx-same}

-- The state that `int_handler` starts from.
abbrev pub entered : Trap → ℕ → Kernel → Kernel
entered trap t k = edited (trap_regs trap) t (cpu_state trap k)

pub take_trap-steps :
    (trap : Trap) (t : ℕ) (k : Kernel)
    → t ≢ null
    → take_trap trap t k ≡ int_handler t (entered trap t k)
unfolding take_trap edit
take_trap-steps trap t k n = rw (==_ne t null n) refl

pub entered_regs :
    (trap : Trap) (t : ℕ) (k : Kernel)
    → (entered trap t k).mem t ≡ trap_regs trap ((cpu_state trap k).mem t)
entered_regs trap t k =
    update_self (cpu_state trap k).mem t (trap_regs trap ((cpu_state trap k).mem t))

-- A kernel call runs the case of its number.
pub int_handler-call :
    (t : ℕ) (k : Kernel) (c : Call)
    → t ≢ null
    → (k.mem t).num ≡ 0x81
    → k.int_handlers 0x81 ≡ kcalls
    → bit_and (k.mem t).flags tf_user ≡ 0
    → decode (k.mem t).eax ≡ c
    → int_handler t k ≡ (perform c t >> back) k
unfolding int_handler acknowledge call_handler kcall load
int_handler-call t k c n num h system e =
    rw (==_ne t null n, num) (rw (==_ne t null n, num, h) (rw (==_ne t null n, system, e) refl))

call_handler-page_faults : (t : ℕ) (k : Kernel) → call_handler page_faults t k ≡ fault_page t k
unfolding call_handler
call_handler-page_faults t k = refl

-- A page fault runs what its handler does.
handled :
    (t : ℕ) (k : Kernel) (f : KCmd (Unit {0}))
    → t ≢ null
    → (k.mem t).num ≡ 0x0E
    → k.int_handlers 0x0E ≡ page_faults
    → call_handler page_faults t k ≡ f k
    → int_handler t k ≡ (f >> back) k
unfolding int_handler acknowledge load
handled t k f n num h e =
    rw (==_ne t null n, num)
      (rw (==_ne t null n, num, h) (ap (λ (r : Run Kernel (Unit {0})). and_then r (λ _. back)) e))

pub int_handler-page_fault :
    (t : ℕ) (k : Kernel)
    → t ≢ null
    → (k.mem t).num ≡ 0x0E
    → k.int_handlers 0x0E ≡ page_faults
    → int_handler t k ≡ (fault_page t >> back) k
int_handler-page_fault t k n num h =
    handled t k (fault_page t) n num h (call_handler-page_faults t k)

-- The interrupt of a device without a handler.
pub int_handler-irq :
    (t : ℕ) (k : Kernel) (n : ℕ)
    → t ≢ null
    → 1 ≤ n
    → n < irq_int_size
    → (k.mem t).num ≡ irq_int_base + n
    → ((p : ℕ) → 1 ≤ p → p < irq_int_size → k.int_handlers (irq_int_base + p) ≡ no_handler)
    → (P : ℕ → Kernel → Type 0)
    → Ensures (event_send minus_one n k) (λ _ l. SameClock k l × Ensures (back l) P)
    → Ensures (int_handler t k) P
unfolding int_handler acknowledge call_handler load
int_handler-irq t k n some low high num h P g =
    let device : (leb 32 (32 + n) && ltb (32 + n) 48) ≡ true = ground (arith, high) in
    let other : (32 + n == 32) ≡ false = ground (arith, low) in
    let index : 32 + n - 32 ≡ n = omega arith in
    let valid : leb 256 (32 + n) ≡ false = ground (arith, high) in
    rw (==_ne t null some, num, device, other, index)
      (Ensures-bind (λ _ l. SameClock k l × Ensures (back l) P) P
        ((event_send minus_one n >> pure tt) k) _
        (Ensures-bind (λ _ l. SameClock k l × Ensures (back l) P) _ (event_send minus_one n k) _ g
          (λ _ l j. j))
        (λ _ l j.
          let num' : (l.mem t).num ≡ 32 + n = j.0.num t ∙ num in
          let handler : l.int_handlers (32 + n) ≡ no_handler =
            ap (λ f. f (32 + n)) j.0.handlers ∙ h n low high in
          rw (==_ne t null some, num', valid, handler) j.1))

-- A tick, before the virtual timers.
abbrev pub ticked : Kernel → Kernel
ticked k = record k { ports = (0x20, 0x20) ∷ k.ports; ticks = (k.ticks + 1) % u32 }

abbrev pub count_tick : Thread → Thread
count_tick s = record s { tick = (s.tick + 1) % 2 ^ 64 }

pub int_handler-clock :
    (t : ℕ) (k : Kernel)
    → t ≢ null
    → (k.mem t).num ≡ irq_int_base
    → k.int_handlers irq_int_base ≡ timer
    → int_handler t k
      ≡ and_then
          (vtimer_loop 16 (timer_bits (ticked k).ticks k.pit_freq) 0 (ticked k))
          (λ _. edit t count_tick >> (preempt t >> back))
unfolding int_handler acknowledge call_handler timer_handler irq_reset outb load
int_handler-clock t k n num h =
    rw (==_ne t null n, num)
      (rw (==_ne t null n, num, h)
        (and_then_assoc (vtimer_loop 16 (timer_bits (ticked k).ticks k.pit_freq) 0 (ticked k))
            (λ _. edit t count_tick >> preempt t) (λ _. back)
          ∙ ap (and_then (vtimer_loop 16 (timer_bits (ticked k).ticks k.pit_freq) 0 (ticked k))) (
              fun_ext (λ _.
                fun_ext (λ l. and_then_assoc (edit t count_tick l) (λ _. preempt t) (λ _. back))))))

-- A call whose argument is in `ebx` already.
called :
    (call : ℕ → KCmd (Unit {0})) (t arg : ℕ) (k : Kernel)
    → t ≢ null
    → (k.mem t).ebx ≡ arg
    → (call t >> back) k ≡ (call_with call t arg >> back) k
called call t arg k n e =
    let same : call t k ≡ call_with call t arg k =
      sym (call_with-steps call k t arg n ∙ ap (call t) (with_ebx-same k t arg e)) in
    ap (λ r. and_then r (λ _. back)) same

-- The number in `eax` is that of the request's case.
abbrev pub case_of : Request → Call
case_of yields = Call.yield
case_of rests = Call.pause
case_of (pauses id) = Call.pause
case_of (resumes id) = Call.resume
case_of (waits n) = Call.wait
case_of (resets n) = Call.reset

pub decode-case_of : (r : Request) → decode (number r) ≡ case_of r
unfolding decode
decode-case_of yields = refl
decode-case_of rests = refl
decode-case_of (pauses id) = refl
decode-case_of (resumes id) = refl
decode-case_of (waits n) = refl
decode-case_of (resets n) = refl

pub perform-step_of :
    (r : Request) (t : ℕ) (k : Kernel)
    → t ≢ null
    → (k.mem t).ebx ≡ argument r
    → (perform (case_of r) t >> back) k ≡ perform_step (step_of r) t k
unfolding perform perform_step perform_event
perform-step_of yields t k n e = refl
perform-step_of rests t k n e = called kcall_pause t minus_one k n e
perform-step_of (pauses id) t k n e = called kcall_pause t id k n e
perform-step_of (resumes id) t k n e = called kcall_resume t id k n e
perform-step_of (waits i) t k n e = called kcall_wait t i k n e
perform-step_of (resets i) t k n e = called kcall_reset t i k n e
