-- ===== src/Boot.antt =====
-- Kernel initialisation, src/kernel/init.c.
pub mod Regions
pub mod First
use pinion.Base.{
  ℕ, zero, suc, ◌+◌, ◌-◌, ◌*◌, ◌/◌, ◌%◌, ◌^◌, bit_or, Bool, true, false, not, List, [], ◌∷◌, Option,
  none, some, Run, ok, ◌++◌, crash, Cmd, pure, fail, get, modify, focus, when, ◌>>=◌, ◌>>◌, ltb,
  leb, ◌==◌, if◌then◌else◌, update, hang, panic,
}
use pinion.Vm.{
  Vm, VmCmd, u32, page_size, kernel_addr_base, kernel_boot_size, pf_pres, pf_rw, page_fmt,
}
use pinion.Vm.Page.{page_touch, page_set}
use pinion.Vm.Heap.{frame_add}
use pinion.Bytes.{Bytes, word}
use pinion.Elf.{Loader, LoadCmd, elf_check_file, elf_load_file, e_entry}
use pinion.Kernel.{
  Thread, Kernel, KCmd, Handler, kcalls, generic_faults, page_faults, double_faults, num_offset,
  load, edit, ts_running, minus_one,
}
use pinion.Thread.Table.{thread_new, thread_get, thread_load}
use pinion.Interrupt.{int_set_handler, timer_set_freq}

abbrev pub kernel_addr_size : ℕ
kernel_addr_size = 0x1000_0000

abbrev pub system_addr_size : ℕ
system_addr_size = 0x3000_0000

-- `left` rounds of a loop that touches the page tables from `base` on, each 4 MiB.
unfoldable pub touch_loop : ℕ → ℕ → ℕ → VmCmd (Unit {0})
touch_loop zero base i = pure tt
touch_loop (suc left) base i = page_touch ((base + i) % u32) >> touch_loop left base (i + 2 ^ 22)

-- `left` rounds of the loop that maps the boot frames, from address `i` on.
unfoldable pub map_loop : ℕ → ℕ → VmCmd (Unit {0})
map_loop zero i = pure tt
map_loop (suc left) i =
    page_set i (page_fmt (i - kernel_addr_base) (bit_or pf_pres pf_rw))
    >> map_loop left (i + page_size)

-- The second loop starts at SYSTEM_ADDR_SIZE, as in the source.
unfoldable pub map_boot : VmCmd (Unit {0})
unfolding touch_loop map_loop
map_boot = do
  touch_loop (kernel_addr_size / 2 ^ 22) kernel_addr_base 0
  touch_loop (system_addr_size / 2 ^ 22) system_addr_size 0
  map_loop (kernel_boot_size / page_size) kernel_addr_base

-- An entry of the memory map, `struct memory_map`, less its high words and its size.
pub record Region : Type 0 where
  pub base : ℕ
  pub length : ℕ
  pub kind : ℕ

-- A free region without the boot frames; `none` where it lies among them.
unfoldable pub trim : Region → Option Region
trim r =
    if leb kernel_boot_size r.base
    then some r
    else if ltb r.length (kernel_boot_size - r.base)
    then none
    else some
        (record r { length = r.length - (kernel_boot_size - r.base); base = kernel_boot_size })

-- The loop that adds the frames of a region, on fuel: `for (addr = 0; addr < length; addr += PAGESZ)`.
-- It returns the addresses that it added.
unfoldable pub frames_loop : ℕ → ℕ → ℕ → ℕ → VmCmd (List ℕ)
frames_loop zero base length addr = fail hang
frames_loop (suc fuel) base length addr =
    let rest = frames_loop fuel base length ((addr + page_size) % u32) in
    if leb length addr
    then pure []
    else do frame_add ((base + addr) % u32); more ← rest; pure ((base + addr) % u32 ∷ more)

unfoldable pub add_region : Region → VmCmd (List ℕ)
unfolding trim frames_loop
add_region r =
    if r.kind == 1
    then elim (trim r) [ none ↦ pure [] | some t ↦ frames_loop (2 ^ 20 + 1) t.base t.length 0 ]
    else pure []

-- The loop over the memory map.
unfoldable pub add_regions : List Region → VmCmd (List ℕ)
unfolding add_region
add_regions [] = pure []
add_regions (r ∷ rs) = do frames ← add_region r; more ← add_regions rs; pure (frames ++ more)

-- The vectors with their handlers, in the order of their registration.
unfoldable pub vectors : List (ℕ × Handler)
vectors =
    (0x81, kcalls)
    ∷ (0x00, generic_faults)
    ∷ (0x01, generic_faults)
    ∷ (0x02, generic_faults)
    ∷ (0x03, generic_faults)
    ∷ (0x04, generic_faults)
    ∷ (0x05, generic_faults)
    ∷ (0x06, generic_faults)
    ∷ (0x07, generic_faults)
    ∷ (0x08, double_faults)
    ∷ (0x09, generic_faults)
    ∷ (0x0A, generic_faults)
    ∷ (0x0B, generic_faults)
    ∷ (0x0C, generic_faults)
    ∷ (0x0D, generic_faults)
    ∷ (0x0E, page_faults)
    ∷ (0x10, generic_faults)
    ∷ (0x11, generic_faults)
    ∷ (0x12, generic_faults)
    ∷ (0x13, generic_faults)
    ∷ []

unfoldable pub set_handlers : List (ℕ × Handler) → KCmd (Unit {0})
set_handlers [] = pure tt
set_handlers ((n, h) ∷ rest) = int_set_handler n h >> set_handlers rest

unfoldable pub register_handlers : KCmd (Unit {0})
unfolding set_handlers vectors
register_handlers = set_handlers vectors

-- The whole machine during initialisation: the kernel, and the bytes in memory.
pub record Machine : Type 0 where
  pub kernel : Kernel
  pub bytes : Bytes

abbrev pub BootCmd : Type 0 → Type 0
BootCmd A = Cmd Machine A

abbrev on_kernel : {A : Type 0} → KCmd A → BootCmd A
on_kernel = focus (λ m. m.kernel) (λ m k. record m { kernel = k })

abbrev on_vm : {A : Type 0} → VmCmd A → BootCmd A
on_vm = focus (λ m. m.kernel.vm) (λ m v. record m { kernel = record m.kernel { vm = v } })

abbrev on_loader : {A : Type 0} → LoadCmd A → BootCmd A
on_loader =
    focus (λ m. record { vm = m.kernel.vm; bytes = m.bytes })
      (λ m l. record { kernel = record m.kernel { vm = l.vm }; bytes = l.bytes })

-- What the boot loader passes on: its magic number, the memory map, the number of modules and the
-- address of the first one's start.
pub record Multiboot : Type 0 where
  pub magic : ℕ
  pub memory_map : List Region
  pub mods_count : ℕ
  pub mods_addr : ℕ

-- `eflags` is the processor's; `stack_top` is `&init_stack[1023]`. After `cpu_init_fpu` the FPU is
-- in use and empty.
unfoldable pub start_thread : ℕ → ℕ → ℕ → ℕ → Thread → Thread
start_thread thread stack_top eflags entry t = record t {
  useresp = stack_top;
  esp = thread + num_offset;
  ss = 0x21;
  ds = 0x21;
  cs = 0x19;
  eflags = bit_or eflags 0x1200;
  eip = entry;
}

unfoldable pub thread_of : Option ℕ → ℕ
thread_of none = minus_one
thread_of (some id) = id

-- From the check of the memory map on to the loaded system: the address of its image.
unfoldable pub load_system : Multiboot → BootCmd ℕ
unfolding map_boot add_regions
load_system mboot = do
  when (not (mboot.magic == 0x2BADB002)) (fail panic)
  on_vm map_boot
  on_vm (add_regions mboot.memory_map)
  when (mboot.mods_count == 0) (fail panic)
  m ← get
  let image = (word m.bytes ((mboot.mods_addr + kernel_addr_base) % u32) + kernel_addr_base) % u32
  when (not (elf_check_file image m.bytes == 0)) (fail panic)
  on_loader (elf_load_file image)
  pure image

-- The rest of `init`: the first thread, the handlers and the timer.
unfoldable pub first_thread : ℕ → ℕ → ℕ → KCmd ℕ
unfolding thread_of edit
first_thread stack_top eflags entry = do
  id ← thread_new
  thread ← thread_get (thread_of id)
  edit thread (start_thread thread stack_top eflags entry)
  register_handlers
  timer_set_freq 64
  modify (λ k. record k { can_use_fpu = true; fpu = [] })
  thread_load thread
  edit thread (λ t. record t { state = ts_running })
  pure thread

unfoldable pub init : Multiboot → ℕ → ℕ → BootCmd ℕ
unfolding load_system
init mboot stack_top eflags = do
  image ← load_system mboot
  m ← get
  on_kernel (first_thread stack_top eflags (e_entry m.bytes image))
