-- ===== src/Lib.antt =====
-- Pinion, a small kernel for 32-bit x86: threads, the scheduler, events, faults, physical frames,
-- page tables, the kernel heap and paging contexts, its initialisation and loader, and the system
-- layer above it.
--
-- The parts and the code that they model:
--   Base       Boolean tests on numbers, commands over a state, lists, bits; no source file.
--   Vm         The memory manager. Vm.State: its state and the constants of src/kernel/space.h,
--              src/kernel/arch.h and src/include/config/address.h. Vm.Frame: src/kernel/frame.c.
--              Vm.Page: src/kernel/page.c and src/kernel/mem.c. Vm.Heap: src/kernel/heap.c, and
--              `frame_add` of frame.c, which calls the heap. Vm.Pctx: src/kernel/pctx.c.
--   Kernel     The whole kernel's state: `struct thread` of src/kernel/thread.h, `t_info` and the
--              constants of src/include/pinion.h, the static variables of src/kernel/thread.c and
--              src/kernel/interrupt.c, and the memory manager's state.
--   Irq        The interrupt controller of src/kernel/interrupt.c.
--   Thread     src/kernel/thread.c. Thread.Table: allocation, IDs, loading and saving. Thread.Sched:
--              the scheduler's queue. Thread.Event: event queues. Thread.Dead: dead threads and
--              reapers. Thread.Fault: faulting threads and debuggers. Thread.Links: what list a
--              linked queue stands for. Thread.Requeue: three lines that several functions share.
--   Kcall      src/kernel/kcall.c: a function for each case of the switch, and the switch.
--   Interrupt  src/kernel/fault.c, and `int_handler`, the handler table and the timer of
--              src/kernel/interrupt.c.
--              Interrupt.Model: what the scheduling is meant to do, as a machine without memory.
--              Interrupt.Wakeups: the same with waits, events and wake-ups. Interrupt.Entry: the
--              interrupts that reach `int_handler`: ticks, devices, page faults and calls.
--              Interrupt.Vtimer: the ticks at which the virtual timers are due.
--   Bytes      src/kernel/memcpy.c and src/kernel/memclr.c.
--   Elf        src/kernel/elf.c with the headers of src/kernel/elf.h. A copy to a page that is not
--              mapped is a page fault of the kernel, which panics.
--   Debug      src/kernel/debug.c.
--   Descriptor The IDT and the TSS, which src/kernel/interrupt.c fills, with src/kernel/cpu.h.
--   Boot       src/kernel/init.c.
--   System     The system layer. System.Monitor: src/system/monitor.c. System.Log: src/system/log.c.
--              System.Calls: src/system/kcalls.c over the model of the kernel calls.
--              System.Keyboard: the keyboard driver of src/system/init.c. System.Threads: the
--              reaper, the debugger, the test functions and `init` of the same file.
--   Tests      Runs and instances of the theorems at concrete states.
--
-- How the parts interact: `int_handler` acknowledges an interrupt as an event, calls the registered
-- handler (kernel calls, faults or the timer), and picks the next thread of the scheduler's queue
-- when none is active. The handlers change the thread structures and the queues; kernel calls also
-- reach the memory manager, whose commands run on the `vm` part of the kernel's state. `init` fills
-- the page tables and the free list, loads the system layer's file and starts the first thread; the
-- wrappers of the system layer put a call into the caller's registers and run `kcall`.
--
-- Functions of the source keep their names. A C function is a command: a function from the state to
-- a result with the new state, or to a crash that says why it does not return: an access through
-- NULL, an array index out of bounds, `debug_panic`, `cpu_idle`, a division by zero. A block of a
-- function, such as a branch or a loop body, has a definition of its own where its proof or the
-- layout calls for one.
-- Integers and pointers are natural numbers, their bit patterns, with the wrap-around written out
-- where the source can overflow; a negative `int` is a pattern from 2^31 on, and a result of -1 that
-- the caller tests is `none`. Structures stand in stores indexed by address; 0 is NULL. Addresses of
-- structures are taken to be apart, as those of allocated blocks are.
-- Physical memory is a function from frame and word; the recursive mapping of page directories is
-- written as the translation that it performs, and flushes of the TLB have no counterpart. The loader
-- and the text functions see memory as bytes by virtual address, beside the frames. The addresses of
-- the assembly stubs, of `tss`, of stacks and of functions, the processor's flags, and what a port
-- reads as are parameters. A variadic function takes the list of its arguments.
--
-- Loops with a bound in the source recurse on what is left of it. The others have fuel: the walks
-- along a scheduler's or an event's queue have 1025, as such a queue holds each of the 1024 threads
-- at most once; the walk along a hash chain has 2^20 + 1, the number of frames below 4 GiB and one;
-- `mem_alloc` has 2^20 + 1, the number of pages and one; the cutting of a slab has 1025, as a slab
-- has at most 1024 pieces. The walks along strings have 2^32, the size of memory; `__itoa` has 33, one
-- more than a 32-bit number has binary digits; the program headers 65536, as their number has 16
-- bits; the frames of a memory region 2^20 + 1. The wait for the serial port has as many reads as a
-- parameter says, where the source waits without end. A run out of fuel is the crash `hang`.
--
-- Not modelled: the assembly files, but for the contract of the FPU routines, of the kernel-call stub
-- and of the port instructions; the messages that the kernel's `init` writes; compiler headers.
-- `init` and the handlers of the kernel run on separate states for ports: the serial port's and the
-- screen's writes are lists of their own. The first call of `int_set_handler` also fills the IDT,
-- which is the part Descriptor.
pub mod Base
pub mod Vm
pub mod Kernel
pub mod Irq
pub mod Thread
pub mod Kcall
pub mod Interrupt
pub mod Tests
pub mod Bytes
pub mod Elf
pub mod Debug
pub mod System
pub mod Descriptor
pub mod Boot
