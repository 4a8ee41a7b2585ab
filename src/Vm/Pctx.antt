-- ===== src/Vm/Pctx.antt =====
-- src/kernel/pctx.c: the table of paging contexts and the address spaces behind it.
pub mod Slot
use pinion.Base.{
  ℕ, zero, suc, ◌+◌, ◌-◌, ◌*◌, ◌/◌, ◌%◌, ◌^◌, bit_and, bit_or, Bool, true, false, Crash, Run, ok,
  crash, Cmd, pure, fail, get, put, modify, when, ◌>>=◌, ◌>>◌, ltb, leb, ◌==◌, if◌then◌else◌,
  update, ◌||◌, Option, none, some,
}
use pinion.Vm.State.{
  u32, page_size, system_addr_base, tmp_src, tmp_map, pge_map, pf_pres, pf_rw, pctx_count, page_fmt,
  page_ufmt, Vm, VmCmd,
}
use pinion.Vm.Frame.{frame_new, frame_free}
use pinion.Vm.Page.{cmap, ctbl, set_cmap, write_word, clear_frame, page_set}

-- The writes through `map` go to the frame that the page TMP_SRC is mapped to.
unfoldable pub space_alloc : VmCmd ℕ
unfolding ctbl clear_frame write_word page_set
space_alloc = do
  space ← frame_new
  page_set tmp_src (page_fmt space (bit_or pf_pres pf_rw))
  v ← get
  let map = ctbl v (tmp_src / 2 ^ 12) / page_size
  modify (clear_frame map)
  modify (write_word map (pge_map / 2 ^ 22) (page_fmt space (bit_or pf_pres pf_rw)))
  pure space

unfoldable pub space_exmap : ℕ → VmCmd (Unit {0})
unfolding set_cmap
space_exmap space = modify (set_cmap (tmp_map / 2 ^ 22) (page_fmt space (bit_or pf_pres pf_rw)))

-- `extbl[i]`, and the frame behind `exmap`, the last page of the same window.
unfoldable pub extbl_frame : Vm → ℕ → ℕ
unfolding cmap
extbl_frame v i = v.phys (cmap v (tmp_map / 2 ^ 22) / page_size) i / page_size

unfoldable pub exmap_frame : Vm → ℕ
unfolding extbl_frame
exmap_frame v = extbl_frame v 1023

-- `left` entries of the directory are copied, from entry `i` on.
unfoldable pub clone_loop : ℕ → ℕ → VmCmd (Unit {0})
unfolding cmap exmap_frame write_word
clone_loop zero i = pure tt
clone_loop (suc left) i =
    modify (λ v. write_word (exmap_frame v) i (cmap v i) v) >> clone_loop left (i + 1)

unfoldable pub space_clone : VmCmd ℕ
unfolding space_alloc space_exmap clone_loop
space_clone = do
  dest ← space_alloc
  space_exmap dest
  clone_loop (1023 - system_addr_base / 2 ^ 22) (system_addr_base / 2 ^ 22)
  pure dest

-- `left` entries of the page table of directory entry `i`, from entry `j` on.
unfoldable pub free_table : ℕ → ℕ → ℕ → VmCmd (Unit {0})
unfolding extbl_frame write_word
free_table zero i j = pure tt
free_table (suc left) i j = do
  v ← get
  let entry = v.phys (extbl_frame v i) j
  when (bit_and entry pf_pres == 1) (frame_free (page_ufmt entry))
  modify (λ v. write_word (extbl_frame v i) j 0 v)
  free_table left i (j + 1)

-- `left` entries of the directory, from entry `i` on.
unfoldable pub free_loop : ℕ → ℕ → VmCmd (Unit {0})
unfolding exmap_frame free_table write_word
free_loop zero i = pure tt
free_loop (suc left) i = do
  v ← get
  when (bit_and (v.phys (exmap_frame v) i) pf_pres == 1) (do
    free_table 1024 i 0
    w ← get
    frame_free (page_ufmt (w.phys (exmap_frame w) i))
    modify (λ w. write_word (exmap_frame w) i 0 w))
  free_loop left (i + 1)

unfoldable pub space_free : ℕ → VmCmd (Unit {0})
unfolding space_exmap free_loop
space_free space = do space_exmap space; free_loop (system_addr_base / 2 ^ 22) 0; frame_free space

-- The first index from `i` on, among `left`, at which the table holds 0.
unfoldable pub free_slot : ℕ → ℕ → (ℕ → ℕ) → Option ℕ
free_slot zero i table = none
free_slot (suc left) i table =
    let rest = free_slot left (i + 1) table in if table i == 0 then some i else rest

unfoldable pub clone_into : ℕ → VmCmd (Unit {0})
unfolding space_clone
clone_into i = do
  space ← space_clone
  modify (λ v. record v { pctx_table = update v.pctx_table i space })

-- `none` is the -1 of the source.
unfoldable pub fill_slot : Option ℕ → VmCmd (Option ℕ)
unfolding clone_into
fill_slot none = pure none
fill_slot (some i) = clone_into i >> pure (some i)

unfoldable pub pctx_new : VmCmd (Option ℕ)
unfolding free_slot fill_slot clone_into
pctx_new = do
  v ← get
  when (v.pctx_table 0 == 0) (clone_into 0)
  w ← get
  fill_slot (free_slot pctx_count 0 w.pctx_table)

-- An `int` is its bit pattern: `pctx <= 0` holds of 0 and of the patterns from 2^31 on.
unfoldable pub pctx_invalid : Vm → ℕ → Bool
pctx_invalid v pctx =
    (pctx == 0) || leb (2 ^ 31) pctx || leb pctx_count pctx || (v.pctx_table pctx == 0)

unfoldable pub pctx_free : ℕ → VmCmd ℕ
unfolding pctx_invalid space_free
pctx_free pctx = do
  v ← get
  if pctx_invalid v pctx then pure 1 else do
    space_free (v.pctx_table pctx)
    modify (λ w. record w { pctx_table = update w.pctx_table pctx 0 })
    pure 0

unfoldable pub pctx_load : ℕ → VmCmd ℕ
unfolding pctx_invalid
pctx_load pctx = do
  v ← get
  if pctx_invalid v pctx
      then pure 1
      else do put (record v { cr3 = v.pctx_table pctx; active_pctx = pctx }); pure 0
