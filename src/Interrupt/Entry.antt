-- ===== src/Interrupt/Entry.antt =====
-- `int_handler` of src/kernel/interrupt.c as a whole: ticks of the timer, interrupts of devices, page
-- faults and kernel calls.
pub mod Clock
pub mod Fault
pub mod Faults
pub mod Follows
pub mod Handler
pub mod Kept
pub mod Model
pub mod Ticks
