-- ===== src/Vm/Heap.antt =====
-- src/kernel/heap.c, and `frame_add` of src/kernel/frame.c, which takes its structure from the
-- heap.
pub mod Bucket
use pinion.Base.{
  ℕ, zero, suc, ◌+◌, ◌-◌, ◌*◌, ◌/◌, ◌%◌, ◌^◌, bit_or, Bool, true, false, Crash, Run, ok, crash, Cmd,
  pure, fail, get, put, modify, when, ◌>>=◌, ◌>>◌, ltb, leb, ◌==◌, if◌then◌else◌, update, not,
  out_of_bounds, panic, hang,
}
use pinion.Vm.State.{
  u32, null, page_size, kernel_heap_end, pf_pres, pf_rw, page_fmt, FrameStruct, Vm, VmCmd,
}
use pinion.Vm.Frame.{frame_new, edit_frame}
use pinion.Vm.Page.{page_set, mem_alloc}

abbrev pub word_size : ℕ
word_size = 4

-- The search for a bucket from `i` on, with `left` buckets still to try; 17 if none fits.
unfoldable pub bucket_loop : ℕ → ℕ → ℕ → ℕ
bucket_loop zero i size = 17
bucket_loop (suc left) i size =
    let rest = bucket_loop left (i + 1) size in if leb size (word_size * 2 ^ i) then i else rest

unfoldable pub find_bucket : ℕ → ℕ
unfolding bucket_loop
find_bucket size = bucket_loop 16 0 size

-- The arrays `heap_bucket` and `analysis` have 16 entries.
unfoldable pub heap_free : ℕ → ℕ → VmCmd (Unit {0})
heap_free ptr size =
    let bucket = find_bucket size in
    if ltb bucket 16
    then modify (λ v. record v {
      analysis = update v.analysis bucket ((v.analysis bucket + u32 - 1) % u32);
      block_next = update v.block_next ptr (v.heap_bucket bucket);
      heap_bucket = update v.heap_bucket bucket ptr;
    })
    else fail out_of_bounds

unfoldable pub heap_valloc : ℕ → VmCmd ℕ
heap_valloc size = do
  v ← get
  if leb kernel_heap_end ((v.brk + size) % u32) then fail panic else do
    frame ← frame_new
    page_set v.brk (page_fmt frame (bit_or pf_pres pf_rw))
    mem_alloc v.brk size (bit_or pf_pres pf_rw)
    modify (λ v. record v { brk = (v.brk + size) % u32 })
    pure v.brk

unfoldable pub slab_size : ℕ → ℕ
slab_size bucket = if leb bucket 10 then page_size else 4 * 2 ^ bucket * word_size

unfoldable pub slab_piece : ℕ → ℕ → ℕ → VmCmd (Unit {0})
unfolding heap_free
slab_piece bucket slab i = do
  heap_free (slab + i * word_size) (word_size * 2 ^ bucket)
  modify (λ v. record v { analysis = update v.analysis bucket ((v.analysis bucket + 1) % u32) })

-- The pieces of the slab from word `i` on, on fuel.
unfoldable pub slab_loop : ℕ → ℕ → ℕ → ℕ → VmCmd (Unit {0})
unfolding slab_piece slab_size
slab_loop zero bucket slab i = fail hang
slab_loop (suc fuel) bucket slab i =
    let rest = slab_loop fuel bucket slab (i + 2 ^ bucket) in
    if ltb i (slab_size bucket / word_size) then slab_piece bucket slab i >> rest else pure tt

-- A slab has at most 1024 pieces.
unfoldable pub heap_new_slab : ℕ → VmCmd (Unit {0})
unfolding heap_valloc slab_loop slab_size
heap_new_slab bucket = do
  slab ← heap_valloc (slab_size bucket)
  if slab == null then pure tt else slab_loop 1025 bucket slab 0

-- The head block of a bucket is taken off and cleared: its link here, which is its first word. (What the
-- rest of it held for the callers is written by them before they read it.)
unfoldable pub heap_take : ℕ → VmCmd ℕ
heap_take bucket = do
  v ← get
  let block = v.heap_bucket bucket
  if block == null then pure null else do
    put (record v {
      analysis = update v.analysis bucket ((v.analysis bucket + 1) % u32);
      heap_bucket = update v.heap_bucket bucket (v.block_next block);
      block_next = update v.block_next block null;
    })
    pure block

unfoldable pub heap_alloc : ℕ → VmCmd ℕ
heap_alloc size =
    let bucket = find_bucket size in
    if ltb 16 bucket
    then pure null
    else do v ← get; when (v.heap_bucket bucket == null) (heap_new_slab bucket); heap_take bucket

-- `sizeof(struct frame_struct)` is 16.
unfoldable pub frame_add : ℕ → VmCmd (Unit {0})
unfolding heap_alloc edit_frame
frame_add frame = do
  fs ← heap_alloc 16
  v ← get
  edit_frame fs
      (λ f. record { prev = null; refc = 0; addr = frame / page_size; next = v.frame_list })
  modify (λ v. record v { frame_list = fs })
  when (not (v.frame_list == null)) (edit_frame v.frame_list (λ n. record n { prev = fs }))
  modify (λ v. record v { out_of_memory = false })
