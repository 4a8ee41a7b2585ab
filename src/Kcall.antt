-- ===== src/Kcall.antt =====
-- src/kernel/kcall.c: the kernel calls. `image` is the calling thread; `eax` holds the number of
-- the call and takes its result, `ebx` and `ecx` hold arguments.
pub mod Threads
pub mod Setstate
pub mod Memory
pub mod Dispatch
pub mod Errors
