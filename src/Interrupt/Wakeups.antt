-- ===== src/Interrupt/Wakeups.antt =====
-- Threads that wait for events and the events that wake them, among the scheduling of
-- src/kernel/interrupt.c, src/kernel/kcall.c and src/kernel/thread.c.
pub mod Calls
pub mod Follows
pub mod Kept
pub mod Model
pub mod Scheduling
pub mod Signal
pub mod Wait
