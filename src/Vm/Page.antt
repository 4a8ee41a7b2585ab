-- ===== src/Vm/Page.antt =====
-- src/kernel/page.c and src/kernel/mem.c. The arrays `cmap` and `ctbl` are windows: `cmap` shows
-- the page directory, the frame that cr3 names, and `ctbl` shows the page tables that its entries
-- name. (Flushes of the TLB have no counterpart: translation here always reads the tables.)
pub mod Alloc
pub mod Format
pub mod Store
use pinion.Base.{
  ℕ, zero, suc, ◌+◌, ◌-◌, ◌*◌, ◌/◌, ◌%◌, ◌^◌, bit_and, bit_or, Bool, true, false, Crash, Run, ok,
  crash, Cmd, pure, fail, get, put, modify, when, ◌>>=◌, ◌>>◌, ltb, leb, ◌==◌, if◌then◌else◌,
  update, hang,
}
use pinion.Vm.State.{u32, page_size, pf_pres, pf_rw, pf_user, pf_mask, page_fmt, Vm, VmCmd}
use pinion.Vm.Frame.{frame_new}

-- `cmap[i]`, `ctbl[i]` and the writes to them.
unfoldable pub cmap : Vm → ℕ → ℕ
cmap v i = v.phys (v.cr3 / page_size) i

unfoldable pub ctbl : Vm → ℕ → ℕ
unfolding cmap
ctbl v i = v.phys (cmap v (i / 1024) / page_size) (i % 1024)

unfoldable pub write_word : ℕ → ℕ → ℕ → Vm → Vm
write_word frame i value v = record v { phys = update v.phys frame (update (v.phys frame) i value) }

unfoldable pub set_cmap : ℕ → ℕ → Vm → Vm
unfolding write_word
set_cmap i value v = write_word (v.cr3 / page_size) i value v

unfoldable pub set_ctbl : ℕ → ℕ → Vm → Vm
unfolding write_word cmap
set_ctbl i value v = write_word (cmap v (i / 1024) / page_size) (i % 1024) value v

-- `memclr` of one frame.
unfoldable pub clear_frame : ℕ → Vm → Vm
clear_frame frame v = record v { phys = update v.phys frame (λ _. 0) }

unfoldable pub page_get : ℕ → VmCmd ℕ
unfolding cmap ctbl
page_get page v =
    if bit_and (cmap v (page / 2 ^ 22)) pf_pres == 0 then ok 0 v else ok (ctbl v (page / 2 ^ 12)) v

-- Whether the processor finds a page at the address.
unfoldable pub mapped : Vm → ℕ → Bool
unfolding cmap ctbl
mapped v p =
    if bit_and (cmap v (p / 2 ^ 22)) pf_pres == 0
    then false
    else if bit_and (ctbl v (p / 2 ^ 12)) pf_pres == 0
    then false
    else true

-- The page table is cleared through its window, so in the frame that the new entry names.
unfoldable pub page_touch : ℕ → VmCmd (Unit {0})
unfolding cmap set_cmap clear_frame
page_touch page = do
  v ← get
  when (bit_and (cmap v (page / 2 ^ 22)) pf_pres == 0) do
    frame ← frame_new
    modify (set_cmap (page / 2 ^ 22) (bit_or (bit_or (bit_or frame pf_pres) pf_rw) pf_user))
    modify (λ v. clear_frame (cmap v (page / 2 ^ 22) / page_size) v)

unfoldable pub page_set : ℕ → ℕ → VmCmd (Unit {0})
unfolding cmap set_ctbl page_touch
page_set page value = do
  v ← get
  when (bit_and (cmap v (page / 2 ^ 22)) pf_pres == 0) (page_touch page)
  modify (set_ctbl (page / 2 ^ 12) value)

-- One page of `mem_alloc`.
unfoldable pub mem_page : ℕ → ℕ → VmCmd (Unit {0})
unfolding page_get page_set
mem_page flags i = do
  entry ← page_get i
  when (bit_and entry pf_pres == 0)
      do frame ← frame_new; page_set i (page_fmt frame (bit_or (bit_and flags pf_mask) pf_pres))

-- The loop of `mem_alloc` from address `i` up to `limit`, on fuel.
unfoldable pub mem_loop : ℕ → ℕ → ℕ → ℕ → VmCmd (Unit {0})
unfolding mem_page
mem_loop zero flags limit i = fail hang
mem_loop (suc fuel) flags limit i =
    let rest = mem_loop fuel flags limit ((i + page_size) % u32) in
    if ltb i limit then mem_page flags i >> rest else pure tt

-- A 32-bit space has 2^20 pages.
unfoldable pub mem_alloc : ℕ → ℕ → ℕ → VmCmd (Unit {0})
unfolding mem_loop
mem_alloc base size flags =
    mem_loop (2 ^ 20 + 1) flags ((base + size) % u32) (base / page_size * page_size)
