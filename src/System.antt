-- ===== src/System.antt =====
-- src/system: the layer that runs in the kernel's address space above the kernel. Its screen, its
-- log, its wrappers of the kernel calls, its keyboard driver and its other threads.
pub mod Monitor
pub mod Log
pub mod Keyboard
pub mod Calls
pub mod Threads
