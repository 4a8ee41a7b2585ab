-- ===== src/Vm.antt =====
-- src/kernel/{frame,page,mem,heap,pctx}.c with the address constants of src/kernel/arch.h,
-- src/include/config/address.h and src/kernel/space.h: physical frames, the two levels of page
-- tables, the kernel heap and the paging contexts.
mod State
pub mod Frame
pub mod Page
pub mod Heap
pub mod Pctx
unfoldable pub use State.*
