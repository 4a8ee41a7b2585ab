-- ===== src/Vm/State.antt =====
-- The state of the memory manager, and the constants of its headers.
use pinion.Base.{ℕ, ◌^◌, bit_and, bit_or, Bool, Cmd}

abbrev pub u32 : ℕ
u32 = 2 ^ 32

abbrev pub null : ℕ
null = 0

-- src/include/config/address.h and src/kernel/arch.h
abbrev pub page_size : ℕ
page_size = 0x1000

abbrev pub kernel_addr_base : ℕ
kernel_addr_base = 0xF000_0000

abbrev pub system_addr_base : ℕ
system_addr_base = 0xC000_0000

abbrev pub kernel_boot_size : ℕ
kernel_boot_size = 0x80_0000

abbrev pub kernel_heap : ℕ
kernel_heap = 0xF100_0000

abbrev pub kernel_heap_end : ℕ
kernel_heap_end = 0xF800_0000

abbrev pub tmp_src : ℕ
tmp_src = 0xFF01_0000

abbrev pub tmp_map : ℕ
tmp_map = 0xFF80_0000

abbrev pub pge_map : ℕ
pge_map = 0xFFC0_0000

-- src/kernel/space.h
abbrev pub pf_pres : ℕ
pf_pres = 0x1

abbrev pub pf_rw : ℕ
pf_rw = 0x2

abbrev pub pf_user : ℕ
pf_user = 0x4

abbrev pub pf_mask : ℕ
pf_mask = 0x0E7F

abbrev pub pctx_count : ℕ
pctx_count = 1024

unfoldable pub page_fmt : ℕ → ℕ → ℕ
page_fmt base flags = bit_or (bit_and base 0xFFFF_F000) (bit_and flags pf_mask)

unfoldable pub page_ufmt : ℕ → ℕ
page_ufmt page = bit_and page 0xFFFF_F000

-- `struct frame_struct`; `next` and `prev` are addresses of others, 0 for NULL.
pub record FrameStruct : Type 0 where
  pub next : ℕ
  pub prev : ℕ
  pub refc : ℕ
  pub addr : ℕ

-- `frames` and `block_next` are the kernel memory that frame structures and free heap blocks stand
-- in, by address. `kernel_end` is the linker's `(uint32_t) &_end - KERNEL_ADDR_BASE`.
-- `phys` is physical memory: the words of each 4 KiB frame. `cr3` is the register.
pub record Vm : Type 0 where
  pub frames : ℕ → FrameStruct
  pub frame_list : ℕ
  pub frame_hash : ℕ → ℕ
  pub out_of_memory : Bool
  pub oom_pool : ℕ
  pub kernel_end : ℕ
  pub phys : ℕ → ℕ → ℕ
  pub cr3 : ℕ
  pub block_next : ℕ → ℕ
  pub heap_bucket : ℕ → ℕ
  pub analysis : ℕ → ℕ
  pub brk : ℕ
  pub pctx_table : ℕ → ℕ
  pub active_pctx : ℕ

abbrev pub VmCmd : Type 0 → Type 0
VmCmd A = Cmd Vm A
