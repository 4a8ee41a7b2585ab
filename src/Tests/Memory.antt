-- ===== src/Tests/Memory.antt =====
-- Frames, pages and the heap at a concrete state.
use pinion.Base.{
  [], ◌∷◌, ◌/◌, ◌^◌, ◌==◌, if◌then◌else◌, ℕ, ◌≡◌, refl, ◌≢◌, arith, Ensures, ◌>>◌, ◌>>=◌, ok,
  bit_and,
}
use pinion.Vm.{Vm, page_fmt, page_ufmt, pf_mask}
use pinion.Vm.Frame.{frame_find, frame_ref, frame_new, frame_free}
use pinion.Vm.Frame.Count.{HasFree, Returned, frame_new-frame_free}
use pinion.Vm.Frame.Share.{IsHashed, InUse, frame_find-lookup, frame_ref-frame_free}
use pinion.Vm.Page.Alloc.{HasTables}
use pinion.Vm.Page.{cmap, page_get, page_set}
use pinion.Vm.Page.Format.{page_fmt-fields}
use pinion.Vm.Page.Store.{HasTable, table_of, page_set-page_get, page_set-page_get_ne}
use pinion.Vm.Heap.{heap_alloc, heap_free}
use pinion.Vm.Heap.Bucket.{heap_free-heap_alloc}
use pinion.Tests.Sample.{sample_vm, empty_frame}

sample-HasFree : HasFree sample_vm 50
sample-HasFree = record {
  in_memory = refl;
  front = refl;
  ne_null = omega arith;
  valid = omega arith;
  rest = omega arith;
  unused = omega arith;
}

first-HasTable : HasTable sample_vm 0x5000
unfolding cmap
first-HasTable = record { present = omega arith; apart = omega arith }

second-HasTable : HasTable sample_vm 0x40_5000
unfolding cmap
second-HasTable = record { present = omega arith; apart = omega arith }

tables_apart : table_of sample_vm 0x40_5000 ≢ table_of sample_vm 0x5000
unfolding cmap
tables_apart = omega arith

frame_new-frame_free_example :
    Ensures ((frame_new >>= frame_free) sample_vm) (λ _ w. Returned sample_vm 50 (60 ∷ []) w)
frame_new-frame_free_example =
    frame_new-frame_free sample_vm 50 (60 ∷ []) sample-HasFree refl
      (refl, omega arith, (refl, omega arith, refl))

page_set-page_get_example :
    Ensures ((page_set 0x5000 0x7007 >> page_get 0x5000) sample_vm) (λ r w. r ≡ 0x7007)
page_set-page_get_example = page_set-page_get sample_vm 0x5000 0x7007 first-HasTable

page_set-page_get_ne_example :
    Ensures
      ((page_set 0x5000 0x7007 >> page_get 0x40_5000) sample_vm)
      (λ r w. page_get 0x40_5000 sample_vm ≡ ok r sample_vm)
page_set-page_get_ne_example =
    page_set-page_get_ne sample_vm 0x5000 0x40_5000 0x7007 first-HasTable second-HasTable
      (omega arith) (λ e. absurd (tables_apart e))

page_fmt-fields_example :
    (page_ufmt (page_fmt 0x7abc 0x1007) ≡ 0x7000) × (bit_and (page_fmt 0x7abc 0x1007) pf_mask ≡ 7)
page_fmt-fields_example = page_fmt-fields 0x7abc 0x1007 (omega arith)

heap_free-heap_alloc_example :
    Ensures ((heap_free 0xF100_0000 170 >> heap_alloc 170) sample_vm) (λ r w.
      (r ≡ 0xF100_0000)
      × ((b : ℕ) → w.heap_bucket b ≡ 0)
      × ((p : ℕ) → p ≢ 0xF100_0000 → w.block_next p ≡ 0))
heap_free-heap_alloc_example =
    heap_free-heap_alloc sample_vm 0xF100_0000 170 (omega arith) (omega arith)

-- Frames 0x105 and 5 are in use, in one hash chain: 70, then 80.
abbrev shared_vm : Vm
shared_vm = record sample_vm {
  frames = λ p.
      if p == 70
      then record { next = 80; prev = 0; refc = 1; addr = 0x105 }
      else if p == 80
      then record { next = 0; prev = 70; refc = 2; addr = 5 }
      else empty_frame;
  frame_hash = λ i. if i == 5 then 70 else 0;
}

shared-IsHashed : IsHashed shared_vm 5 (70 ∷ 80 ∷ [])
shared-IsHashed = (refl, omega arith, (refl, omega arith, refl))

shared-InUse : InUse shared_vm 0x5000 (70 ∷ 80 ∷ []) 80
shared-InUse = record {
  few = omega arith;
  hashed = shared-IsHashed;
  found = refl;
  ne_null = omega arith;
  counted = omega arith;
  bounded = omega arith;
}

frame_find-lookup_example : frame_find 0x5000 shared_vm ≡ ok 80 shared_vm
frame_find-lookup_example =
    frame_find-lookup shared_vm 0x5000 (70 ∷ 80 ∷ []) (omega arith) shared-IsHashed

frame_ref-frame_free_example : Ensures ((frame_ref 0x5000 >> frame_free 0x5000) shared_vm) (λ _ w.
    ((p : ℕ) → w.frames p ≡ shared_vm.frames p) × (w ≡ record shared_vm { frames = w.frames }))
frame_ref-frame_free_example = frame_ref-frame_free shared_vm 0x5000 (70 ∷ 80 ∷ []) 80 shared-InUse

pub first-HasTables : HasTables 0x3000 0x5008 sample_vm
unfolding cmap
first-HasTables = λ p from below.
    let table : p / 2 ^ 22 ≡ 0 = omega (arith, from, below) in
    record { present = rw table (omega arith); apart = rw table (omega arith) }
