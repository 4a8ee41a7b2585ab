-- ===== src/Vm/Frame.antt =====
-- The allocator of src/kernel/frame.c (`frame_add`, which needs the heap, stands in Vm.Heap).
pub mod Count
pub mod Share
use pinion.Base.{
  ℕ, zero, suc, ◌+◌, ◌-◌, ◌*◌, ◌/◌, ◌%◌, ◌^◌, Bool, true, false, Crash, Run, ok, crash, Cmd, pure,
  fail, get, put, modify, when, ◌>>=◌, ◌>>◌, ltb, leb, ◌==◌, if◌then◌else◌, update, null_pointer,
  panic, hang, not,
}
use pinion.Vm.State.{u32, null, page_size, kernel_boot_size, FrameStruct, Vm, VmCmd}

-- A read or a write through a pointer to a frame structure.
unfoldable pub load_frame : ℕ → VmCmd FrameStruct
load_frame p v = if p == null then crash null_pointer else ok (v.frames p) v

unfoldable pub edit_frame : ℕ → (FrameStruct → FrameStruct) → VmCmd (Unit {0})
edit_frame p f v =
    if p == null
    then crash null_pointer
    else ok tt (record v { frames = update v.frames p (f (v.frames p)) })

-- A chain holds one structure for each frame at most, and a 32-bit space has 2^20 frames.
abbrev pub chain_fuel : ℕ
chain_fuel = 2 ^ 20 + 1

-- The walk along one hash chain for the structure of frame number `number`.
unfoldable pub find_loop : ℕ → ℕ → ℕ → VmCmd ℕ
find_loop zero number list v = crash hang
find_loop (suc fuel) number list v =
    let rest = find_loop fuel number (v.frames list).next v in
    if list == null then ok null v else if (v.frames list).addr == number then ok list v else rest

unfoldable pub frame_find : ℕ → VmCmd ℕ
frame_find frame v =
    find_loop chain_fuel (frame / page_size) (v.frame_hash (frame / page_size % 256)) v

unfoldable pub frame_pull : ℕ → VmCmd (Unit {0})
frame_pull fs = do
  f ← load_frame fs
  (if f.prev == null
      then modify (λ v. record v { frame_hash = update v.frame_hash (f.addr % 256) f.next })
      else edit_frame f.prev (λ p. record p { next = f.next }))
  when (not (f.next == null)) (edit_frame f.next (λ n. record n { prev = f.prev }))

-- The branch of `frame_free` that gives the frame back.
unfoldable pub frame_give : ℕ → VmCmd (Unit {0})
unfolding frame_pull
frame_give fs = do
  frame_pull fs
  v ← get
  edit_frame fs (λ f. record f { prev = null; next = v.frame_list })
  when (not (v.frame_list == null)) (edit_frame v.frame_list (λ n. record n { prev = fs }))
  modify (λ w. record w { frame_list = fs; out_of_memory = false })

unfoldable pub frame_free : ℕ → VmCmd (Unit {0})
frame_free frame = do
  fs ← frame_find frame
  if fs == null then pure tt else do
    f ← load_frame fs
    if f.refc == 1
        then frame_give fs
        else edit_frame fs (λ f. record f { refc = (f.refc + u32 - 1) % u32 })

-- `frame_new` with the boot pool in use.
unfoldable pub frame_new_pool : VmCmd ℕ
frame_new_pool = do
  modify (λ v. record v { oom_pool = (v.oom_pool + u32 - page_size) % u32 })
  v ← get
  if leb v.oom_pool v.kernel_end then fail panic else pure v.oom_pool

-- `frame_new` with the head `fs` of the free list.
unfoldable pub frame_take : ℕ → VmCmd ℕ
frame_take fs = do
  f ← load_frame fs
  modify (λ v. record v { frame_list = f.next })
  when (not (f.next == null)) (edit_frame fs (λ f. record f { prev = null }))
  v ← get
  let head = v.frame_hash (f.addr % 256)
  edit_frame fs (λ f. record f { next = head; prev = null })
  when (not (head == null)) (edit_frame head (λ n. record n { prev = fs }))
  modify (λ v. record v { frame_hash = update v.frame_hash (f.addr % 256) fs })
  edit_frame fs (λ f. record f { refc = 1 })
  pure (f.addr * page_size % u32)

-- The recursive call of the source runs with `out_of_memory` set, so it takes the pool.
unfoldable pub frame_new : VmCmd ℕ
unfolding frame_new_pool frame_take
frame_new = do
  v ← get
  if v.out_of_memory
      then frame_new_pool
      else if v.frame_list == null
      then modify (λ v. record v { out_of_memory = true }) >> frame_new_pool
      else frame_take v.frame_list

unfoldable pub frame_ref : ℕ → VmCmd (Unit {0})
frame_ref frame = do
  fs ← frame_find frame
  if fs == null then pure tt else edit_frame fs (λ f. record f { refc = (f.refc + 1) % u32 })

unfoldable pub frame_refc : ℕ → VmCmd ℕ
frame_refc frame = do
  fs ← frame_find frame
  if fs == null then pure 0 else do f ← load_frame fs; pure f.refc
