-- ===== src/Interrupt.antt =====
-- src/kernel/fault.c, and the interrupt entry, handler table and timer of src/kernel/interrupt.c.
pub mod States
pub mod Follows
pub mod Model
pub mod Sane
pub mod RoundRobin
pub mod Wakeups
pub mod Vtimer
pub mod Entry
pub mod Switch
pub mod Fault
pub mod Timer
use pinion.Base.{
  ℕ, zero, suc, ◌+◌, ◌-◌, ◌*◌, ◌/◌, ◌%◌, ◌^◌, ◌<◌, bit_and, bit_xor, Bool, ◌||◌, ◌&&◌, not, Run, ok,
  Cmd, crash, fail, pure, get, modify, when, ◌>>=◌, ◌>>◌, ltb, leb, ◌==◌, if◌then◌else◌, update,
  panic, idle, out_of_bounds, divide_error,
}
use pinion.Vm.{null, u32}
use pinion.Kernel.{
  Thread, Kernel, KCmd, Handler, no_handler, kcalls, generic_faults, page_faults, double_faults,
  timer, load, edit, outb, ts_running, ts_queued, ts_paused, fv_page, fv_accs, ev_vtimer, minus_one,
}
use pinion.Irq.{irq_reset, irq_init, irq_int_size}
use pinion.Thread.Table.{thread_save, thread_load, thread_get_active}
use pinion.Thread.Sched.{schedule_push, schedule_remv, schedule_next}
use pinion.Thread.Requeue.{requeue}
use pinion.Thread.Event.{event_send}
use pinion.Thread.Fault.{fault_push}
use pinion.Kcall.Dispatch.{kcall}

unfoldable pub fault_generic : ℕ → KCmd (Unit {0})
fault_generic image = do
  i ← load image
  when (not (bit_and i.cs 0x3 == 0)) (fail panic)
  thread_save image
  edit image (λ t. record t { state = ts_paused; fault = fv_accs })
  fault_push image
  pure tt

unfoldable pub fault_page : ℕ → KCmd (Unit {0})
fault_page image = do
  k ← get
  i ← load image
  when (bit_and i.cs 0x3 == 0) (fail panic)
  thread_save image
  edit image (λ t. record t { fault_addr = k.cr2; fault = fv_page; state = ts_paused })
  fault_push image
  pure tt

unfoldable pub fault_double : ℕ → KCmd (Unit {0})
fault_double image = fail panic

-- The bits of the virtual timers' time that the tick changes, and all below the lowest of them.
unfoldable pub timer_bits : ℕ → ℕ → ℕ
timer_bits tick freq =
    let ptime = (tick + u32 - 1) % u32 * 2 ^ 10 % u32 / freq in
    let ctime = tick * 2 ^ 10 % u32 / freq in
    let time = bit_xor ptime ctime in (time + bit_and time ((u32 - time) % u32) + u32 - 1) % u32

-- The loop over the virtual timers, with `left` of them to go.
unfoldable pub vtimer_loop : ℕ → ℕ → ℕ → KCmd (Unit {0})
vtimer_loop zero time i = pure tt
vtimer_loop (suc left) time i = do
  when (not (bit_and time (2 ^ (15 - i)) == 0)) (event_send minus_one (ev_vtimer i) >> pure tt)
  vtimer_loop left time (i + 1)

unfoldable pub preempt : ℕ → KCmd (Unit {0})
preempt image = do i ← load image; when (i.state == ts_running) (requeue image)

unfoldable pub timer_handler : ℕ → KCmd (Unit {0})
unfolding timer_bits vtimer_loop preempt
timer_handler image = do
  modify (λ k. record k { ticks = (k.ticks + 1) % u32 })
  k ← get
  vtimer_loop 16 (timer_bits k.ticks k.pit_freq) 0
  edit image (λ t. record t { tick = (t.tick + 1) % 2 ^ 64 })
  preempt image

unfoldable pub int_set_handler : ℕ → Handler → KCmd (Unit {0})
int_set_handler n handler =
    modify (λ k. record k { int_handlers = update k.int_handlers n handler })

-- A call through a null handler does not happen: the source tests for it.
unfoldable pub call_handler : Handler → ℕ → KCmd (Unit {0})
unfolding fault_generic fault_page fault_double timer_handler
call_handler no_handler image = pure tt
call_handler kcalls image = kcall image
call_handler generic_faults image = fault_generic image
call_handler page_faults image = fault_page image
call_handler double_faults image = fault_double image
call_handler timer image = timer_handler image

abbrev pub irq_int_base : ℕ
irq_int_base = 32

-- The IRQ, if the interrupt is one, becomes an event; the timer's is only acknowledged.
unfoldable pub acknowledge : ℕ → KCmd (Unit {0})
acknowledge num =
    if leb irq_int_base num && ltb num (irq_int_base + irq_int_size)
    then if num == irq_int_base
      then irq_reset 0 >> pure tt
      else event_send minus_one (num - irq_int_base) >> pure tt
    else pure tt

-- No thread is active: the next one in the scheduler's queue runs.
unfoldable pub switch : KCmd ℕ
switch = do
  image ← schedule_next
  if image == null then fail idle else do
    schedule_remv image
    thread_load image
    edit image (λ t. record t { state = ts_running })
    pure image

unfoldable pub int_handler : ℕ → KCmd ℕ
unfolding acknowledge call_handler switch
int_handler image = do
  i ← load image
  acknowledge i.num
  k ← get
  j ← load image
  if leb 256 j.num then fail out_of_bounds else do
    call_handler (k.int_handlers j.num) image
    active ← thread_get_active
    if active == null then switch else pure active

unfoldable pub timer_set_freq : ℕ → KCmd ℕ
unfolding outb irq_init int_set_handler
timer_set_freq hertz =
    let divider = 1193180 / hertz in
    if hertz == 0
    then fail divide_error
    else if (divider == 0) || leb 65536 divider
    then pure 1
    else do
      outb 0x43 0x36
      outb 0x40 (bit_and divider 0xFF)
      outb 0x40 (divider / 2 ^ 8 % 256)
      irq_init
      int_set_handler irq_int_base timer
      modify (λ k. record k { pit_freq = hertz })
      pure 0
