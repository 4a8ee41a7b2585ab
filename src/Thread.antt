-- ===== src/Thread.antt =====
-- src/kernel/thread.c: the thread table, loading and saving, and the queues of threads. The
-- queues link thread structures through pointers in them, each through one field.
pub mod Links
pub mod Table
pub mod Sched
pub mod Requeue
pub mod Clock
pub mod Event
pub mod Dead
pub mod Fault
