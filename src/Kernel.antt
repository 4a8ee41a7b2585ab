-- ===== src/Kernel.antt =====
-- The kernel's whole state: src/kernel/thread.h with the variables of src/kernel/thread.c and
-- src/kernel/interrupt.c, the user structures of src/include/pinion.h, and access to them.
mod Struct
mod State
mod Constants
unfoldable pub use Struct.*
unfoldable pub use State.*
unfoldable pub use Constants.*
