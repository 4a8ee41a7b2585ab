-- ===== src/Vm/Frame/Count.antt =====
-- Reference counts of frames that `frame_new` hands out.
use pinion.Base.{
  refl, subst, List, ◌∷◌, ◌∉◌, update, Ensures-and, mem-ne, ℕ, suc, ◌*◌, ◌/◌, ◌%◌, ◌^◌, ◌<◌, ◌≡◌,
  ◌≢◌, ◌∙◌, ap, sym, false, arith, ok, Ensures, ◌==◌, ◌>>=◌, ==_ne, Ensures-bind, Ensures-mono,
}
use pinion.Thread.Links.{Chain, Chain-same}
use pinion.Vm.{FrameStruct, Vm, null, page_size}
use pinion.Vm.Frame.{
  load_frame, edit_frame, find_loop, frame_find, frame_take, frame_new, frame_free, frame_give,
  frame_pull, frame_refc, chain_fuel,
}

-- The free list of `v` starts with the structure `fs` of a frame below 4 GiB.
pub record HasFree (v : Vm) (fs : ℕ) : Type 0 where
  pub in_memory : v.out_of_memory ≡ false
  pub front : v.frame_list ≡ fs
  pub ne_null : fs ≢ null
  pub valid : (v.frames fs).addr < 2 ^ 20
  pub rest : (v.frames fs).next ≢ fs
  pub unused : v.frame_hash ((v.frames fs).addr % 256) ≢ fs

-- The frame's number leads back to its structure, whose count is one.
abbrev pub Held : ℕ → ℕ → Vm → Type 0
Held number fs w =
    (w.frame_hash (number % 256) ≡ fs) × ((w.frames fs).addr ≡ number) × ((w.frames fs).refc ≡ 1)

frame_take-Held :
    (v : Vm) (fs : ℕ)
    → HasFree v fs
    → Ensures
        (frame_take fs v)
        (λ r w. (r ≡ (v.frames fs).addr * page_size) × Held (v.frames fs).addr fs w)
unfolding frame_take load_frame edit_frame
frame_take-Held v fs h = ground (arith, h.ne_null, h.unused, h.valid)

frame_new-takes : (v : Vm) (fs : ℕ) → HasFree v fs → frame_new v ≡ frame_take fs v
unfolding frame_new
frame_new-takes v fs h =
    let some_front : (v.frame_list == null) ≡ false = ground (arith, h.front, h.ne_null) in
    rw (h.in_memory, some_front, h.front)

pub find_loop-here :
    (fuel number fs : ℕ) (w : Vm)
    → fs ≢ null
    → (w.frames fs).addr ≡ number
    → find_loop (suc fuel) number fs w ≡ ok fs w
unfolding find_loop
find_loop-here fuel number fs w n e = ground (arith, n, e)

pub find_loop-there :
    (fuel number fs : ℕ) (w : Vm)
    → fs ≢ null
    → (w.frames fs).addr ≢ number
    → find_loop (suc fuel) number fs w ≡ find_loop fuel number (w.frames fs).next w
unfolding find_loop
find_loop-there fuel number fs w n e = ground (arith, n, e)

frame_find-Held :
    (w : Vm) (number fs : ℕ)
    → fs ≢ null
    → Held number fs w
    → frame_find (number * page_size) w ≡ ok fs w
unfolding frame_find
frame_find-Held w number fs n h =
    let e : number * page_size / page_size ≡ number = omega arith in
    ap (λ m. find_loop chain_fuel m (w.frame_hash (m % 256)) w) e
    ∙ ap (λ p. find_loop chain_fuel number p w) h.0
    ∙ find_loop-here (2 ^ 20) number fs w n h.1

frame_refc-Held :
    (w : Vm) (number fs : ℕ)
    → fs ≢ null
    → Held number fs w
    → frame_refc (number * page_size) w ≡ ok 1 w
unfolding frame_refc load_frame
frame_refc-Held w number fs n h =
    rw (frame_find-Held w number fs n h, ==_ne fs null n, ==_ne fs null n, h.2)

-- `frame_new` with a free list takes its first frame: the address returned is that frame's, and
-- from then on `frame_refc` of it is 1.
pub frame_new-frame_refc :
    (v : Vm) (fs : ℕ)
    → HasFree v fs
    → Ensures
        (frame_new v)
        (λ r w. (r ≡ (v.frames fs).addr * page_size) × (frame_refc r w ≡ ok 1 w))
frame_new-frame_refc v fs h = rw (frame_new-takes v fs h) (
    Ensures-mono _ _ (frame_take fs v) (frame_take-Held v fs h) (λ r w g.
      (g.0, ap (λ a. frame_refc a w) g.0 ∙ frame_refc-Held w (v.frames fs).addr fs h.ne_null g.1)))

-- The structure of another frame: only the link back may differ.
abbrev pub SameFrame : FrameStruct → FrameStruct → Type 0
SameFrame a b = (b.next ≡ a.next) × (b.addr ≡ a.addr) × (b.refc ≡ a.refc)

frame_give-front :
    (w : Vm) (fs : ℕ)
    → fs ≢ null
    → (w.frames fs).prev ≡ null
    → (w.frames fs).next ≢ fs
    → w.frame_list ≢ fs
    → Ensures (frame_give fs w) (λ _ x.
      (x.frame_list ≡ fs)
      × ((x.frames fs).next ≡ w.frame_list)
      × ((x.frames fs).addr ≡ (w.frames fs).addr)
      × (x.out_of_memory ≡ false)
      × (x.frame_hash ≡ update w.frame_hash ((w.frames fs).addr % 256) (w.frames fs).next))
unfolding frame_give frame_pull load_frame edit_frame
frame_give-front w fs n p q f = ground (arith, n, p, q, f)

frame_give-others :
    (w : Vm) (fs : ℕ)
    → fs ≢ null
    → (w.frames fs).prev ≡ null
    → Ensures (frame_give fs w) (λ _ x. (p : ℕ) → p ≢ fs → SameFrame (w.frames p) (x.frames p))
unfolding frame_give frame_pull load_frame edit_frame
frame_give-others w fs n q = ground (arith, n, q)

frame_free-gives :
    (w : Vm) (number fs : ℕ)
    → fs ≢ null
    → Held number fs w
    → frame_free (number * page_size) w ≡ frame_give fs w
unfolding frame_free load_frame
frame_free-gives w number fs n h =
    rw (frame_find-Held w number fs n h, ==_ne fs null n, ==_ne fs null n, h.2)

-- What `frame_free` needs to know of the links that `frame_take` leaves.
abbrev Unlinked : Vm → ℕ → Vm → Type 0
Unlinked v fs w =
    ((w.frames fs).prev ≡ null)
    × ((w.frames fs).next ≡ v.frame_hash ((v.frames fs).addr % 256))
    × (w.frame_list ≡ (v.frames fs).next)
    × (w.frame_hash ≡ update v.frame_hash ((v.frames fs).addr % 256) fs)

frame_take-Unlinked :
    (v : Vm) (fs : ℕ)
    → HasFree v fs
    → Ensures (frame_take fs v) (λ r w.
      ((r ≡ (v.frames fs).addr * page_size) × Held (v.frames fs).addr fs w) × Unlinked v fs w)
unfolding frame_take load_frame edit_frame
frame_take-Unlinked v fs h = ground (arith, h.ne_null, h.unused, h.valid)

frame_take-others :
    (v : Vm) (fs : ℕ)
    → HasFree v fs
    → Ensures (frame_take fs v) (λ _ w. (p : ℕ) → p ≢ fs → SameFrame (v.frames p) (w.frames p))
unfolding frame_take load_frame edit_frame
frame_take-others v fs h = ground (arith, h.ne_null, h.unused, h.valid)

-- `w` has the free list and the hash chains of `v`, where the free list was `fs ∷ xs`, and the frames'
-- numbers and counts but for the count of `fs`.
pub record Returned (v : Vm) (fs : ℕ) (xs : List ℕ) (w : Vm) : Type 0 where
  pub free : Chain (λ p. (w.frames p).next) w.frame_list (fs ∷ xs)
  pub hash : (n : ℕ) → w.frame_hash n ≡ v.frame_hash n
  pub addr : (w.frames fs).addr ≡ (v.frames fs).addr
  pub others : (p : ℕ) → p ≢ fs → SameFrame (v.frames p) (w.frames p)
  pub in_memory : w.out_of_memory ≡ false

restored : (hash : ℕ → ℕ) (i fs n : ℕ) → update (update hash i fs) i (hash i) n ≡ hash n
restored hash i fs n = ground arith

frame_give-Returned :
    (v w : Vm) (fs : ℕ) (xs : List ℕ)
    → HasFree v fs
    → fs ∉ xs
    → Chain (λ p. (v.frames p).next) v.frame_list (fs ∷ xs)
    → Held (v.frames fs).addr fs w
    → Unlinked v fs w
    → ((p : ℕ) → p ≢ fs → SameFrame (v.frames p) (w.frames p))
    → Ensures (frame_give fs w) (λ _ x. Returned v fs xs x)
frame_give-Returned v w fs xs h out list held u same =
    let apart : (w.frames fs).next ≢ fs = λ e. h.unused (sym u.1 ∙ e) in
    let front : w.frame_list ≢ fs = λ e. h.rest (sym u.2 ∙ e) in
    Ensures-mono _ _ (frame_give fs w)
      (Ensures-and _ _ (frame_give fs w) (frame_give-front w fs h.ne_null u.0 apart front)
        (frame_give-others w fs h.ne_null u.0))
      (λ _ x f.
        let others : (p : ℕ) → p ≢ fs → SameFrame (v.frames p) (x.frames p) = λ p ne. (
          (f.1 p ne).0 ∙ (same p ne).0,
          (f.1 p ne).1 ∙ (same p ne).1,
          (f.1 p ne).2 ∙ (same p ne).2,
        ) in
        let link : (x.frames fs).next ≡ (v.frames fs).next = f.0.1 ∙ u.2 in
        let hash : x.frame_hash
            ≡ update (update v.frame_hash ((v.frames fs).addr % 256) fs) ((v.frames fs).addr % 256)
                (v.frame_hash ((v.frames fs).addr % 256)) =
          f.0.4 ∙ rw (u.3, held.1, u.1) refl in
        record {
          free = (
            f.0.0,
            h.ne_null,
            subst (λ q. Chain (λ p. (x.frames p).next) q xs) (sym link)
                (Chain-same (λ p. (v.frames p).next) (λ p. (x.frames p).next) (v.frames fs).next xs
                  (λ a i. (others a (λ e. mem-ne fs a xs out i (sym e))).0) list.2),
          );
          hash = λ n.
              ap (λ (t : ℕ → ℕ). t n) hash ∙ restored v.frame_hash ((v.frames fs).addr % 256) fs n;
          addr = f.0.2 ∙ held.1;
          others = others;
          in_memory = f.0.3;
        })

-- `frame_new` with a free list, then `frame_free` of the frame it returned: the free list is what it
-- was, that frame in front of those that followed it, and so is every hash chain; no other frame gets
-- another number, count or link onwards.
pub frame_new-frame_free :
    (v : Vm) (fs : ℕ) (xs : List ℕ)
    → HasFree v fs
    → fs ∉ xs
    → Chain (λ p. (v.frames p).next) v.frame_list (fs ∷ xs)
    → Ensures ((frame_new >>= frame_free) v) (λ _ w. Returned v fs xs w)
frame_new-frame_free v fs xs h out list =
    let number = (v.frames fs).addr in
    let taken = λ (r : ℕ) (w : Vm).
      (((r ≡ number * page_size) × Held number fs w) × Unlinked v fs w)
      × ((p : ℕ) → p ≢ fs → SameFrame (v.frames p) (w.frames p)) in
    rw (frame_new-takes v fs h) (
      Ensures-bind taken (λ _ x. Returned v fs xs x) (frame_take fs v) frame_free
        (Ensures-and _ _ (frame_take fs v) (frame_take-Unlinked v fs h) (frame_take-others v fs h))
        (λ r w g.
          let gives : frame_free r w ≡ frame_give fs w =
            ap (λ a. frame_free a w) g.0.0.0 ∙ frame_free-gives w number fs h.ne_null g.0.0.1 in
          rw gives (frame_give-Returned v w fs xs h out list g.0.0.1 g.0.1 g.1)))
