-- ===== src/Vm/Frame/Share.antt =====
-- Frames with several references, and the walk along a hash chain.
use pinion.Base.{
  ℕ, zero, suc, ◌+◌, ◌-◌, ◌/◌, ◌%◌, ◌^◌, ◌≤◌, ◌<◌, ◌≡◌, refl, ◌≢◌, ◌∙◌, ap, sym, inl, inr, arith,
  ok, Ensures, ◌==◌, if◌then◌else◌, update, ◌>>◌, ==_ne, ==_refl, List, [], ◌∷◌, length, Bool-cases,
}
use pinion.Vm.{Vm, null, page_size, u32}
use pinion.Thread.Links.{Chain, Chain-same}
use pinion.Vm.Frame.{
  load_frame, edit_frame, find_loop, frame_find, frame_free, frame_ref, chain_fuel,
}
use pinion.Vm.Frame.Count.{find_loop-here, find_loop-there}

-- The structure that the chain has for a frame number, or NULL.
abbrev pub lookup : Vm → ℕ → List ℕ → ℕ
lookup v number [] = null
lookup v number (p ∷ ps) = if (v.frames p).addr == number then p else lookup v number ps

-- The structures of the hash chain of a frame number, in order.
abbrev pub IsHashed : Vm → ℕ → List ℕ → Type 0
IsHashed v number ps = Chain (λ p. (v.frames p).next) (v.frame_hash (number % 256)) ps

find_loop-end : (fuel number : ℕ) (v : Vm) → find_loop (suc fuel) number null v ≡ ok null v
unfolding find_loop
find_loop-end fuel number v = refl

find_loop-lookup :
    (fuel number p : ℕ) (v : Vm) (ps : List ℕ)
    → length ps < fuel
    → Chain (λ q. (v.frames q).next) p ps
    → find_loop fuel number p v ≡ ok (lookup v number ps) v
find_loop-lookup zero number p v ps h c = absurd (omega arith)
find_loop-lookup (suc fuel) number p v [] h c = rw c (find_loop-end fuel number v)
find_loop-lookup (suc fuel) number p v (x ∷ ps) h (e, n, c) =
    elim (Bool-cases ((v.frames x).addr == number)) [
      | inl here ↦ rw (e, here) (find_loop-here fuel number x v n (ground arith))
      | inr there ↦
          rw (e, there)
            (find_loop-there fuel number x v n (ground arith)
              ∙ find_loop-lookup fuel number (v.frames x).next v ps (omega arith) c)
    ]

-- `frame_find` of a frame's address searches the whole chain of its number: it returns the first
-- structure with that number, or NULL if there is none, and changes nothing. The chain has at most
-- 2^20 structures, as many as there are frames.
pub frame_find-lookup :
    (v : Vm) (frame : ℕ) (ps : List ℕ)
    → length ps ≤ 2 ^ 20
    → IsHashed v (frame / page_size) ps
    → frame_find frame v ≡ ok (lookup v (frame / page_size) ps) v
unfolding frame_find
frame_find-lookup v frame ps few c =
    find_loop-lookup chain_fuel (frame / page_size) _ v ps (omega (arith, few)) c

-- `v` with another count for one structure.
abbrev recount : ℕ → ℕ → Vm → Vm
recount fs c v = record v { frames = update v.frames fs (record (v.frames fs) { refc = c }) }

recount-addr : (fs c : ℕ) (v : Vm) (p : ℕ) → ((recount fs c v).frames p).addr ≡ (v.frames p).addr
recount-addr fs c v p = ground arith

recount-lookup :
    (fs c : ℕ) (v : Vm) (number : ℕ) (ps : List ℕ)
    → lookup (recount fs c v) number ps ≡ lookup v number ps
recount-lookup fs c v number [] = refl
recount-lookup fs c v number (p ∷ ps) = rw (recount-addr fs c v p, recount-lookup fs c v number ps)

recount-IsHashed :
    (fs c : ℕ) (v : Vm) (number : ℕ) (ps : List ℕ)
    → IsHashed v number ps
    → IsHashed (recount fs c v) number ps
recount-IsHashed fs c v number ps h =
    Chain-same (λ p. (v.frames p).next) _ (v.frame_hash (number % 256)) ps (λ a i. ground arith) h

frame_ref-recount :
    (v : Vm) (frame fs : ℕ)
    → fs ≢ null
    → frame_find frame v ≡ ok fs v
    → frame_ref frame v ≡ ok tt (recount fs (((v.frames fs).refc + 1) % u32) v)
unfolding frame_ref edit_frame
frame_ref-recount v frame fs n found = rw (found, ==_ne fs null n, ==_ne fs null n)

frame_free-recount :
    (v : Vm) (frame fs : ℕ)
    → fs ≢ null
    → (v.frames fs).refc ≢ 1
    → frame_find frame v ≡ ok fs v
    → frame_free frame v ≡ ok tt (recount fs (((v.frames fs).refc + u32 - 1) % u32) v)
unfolding frame_free load_frame edit_frame
frame_free-recount v frame fs n shared found =
    rw (found, ==_ne fs null n, ==_ne fs null n, ==_ne (v.frames fs).refc 1 shared, ==_ne fs null n)

recount-back :
    (v : Vm) (fs p : ℕ)
    → (v.frames fs).refc + 1 < u32
    → (let v' = recount fs (((v.frames fs).refc + 1) % u32) v in
        (recount fs (((v'.frames fs).refc + u32 - 1) % u32) v').frames p)
      ≡ v.frames p
recount-back v fs p bounded =
    let back : (((v.frames fs).refc + 1) % u32 + u32 - 1) % u32 ≡ (v.frames fs).refc =
      omega (arith, bounded) in
    elim (Bool-cases (p == fs)) [
      | inl here ↦
          let e : p ≡ fs = ground arith in rw here (rw (==_refl fs, back) (ap v.frames (sym e)))
      | inr there ↦ rw there refl
    ]

-- A frame that is in use has a structure in its hash chain with a count of at least one.
pub record InUse (v : Vm) (frame : ℕ) (ps : List ℕ) (fs : ℕ) : Type 0 where
  pub few : length ps ≤ 2 ^ 20
  pub hashed : IsHashed v (frame / page_size) ps
  pub found : lookup v (frame / page_size) ps ≡ fs
  pub ne_null : fs ≢ null
  pub counted : 1 ≤ (v.frames fs).refc
  pub bounded : (v.frames fs).refc + 1 < u32

InUse-find :
    (v : Vm) (frame : ℕ) (ps : List ℕ) (fs : ℕ) → InUse v frame ps fs → frame_find frame v ≡ ok fs v
InUse-find v frame ps fs u = frame_find-lookup v frame ps u.few u.hashed ∙ ap (λ p. ok p v) u.found

-- One more reference to a frame in use, and one less: `frame_ref` and then `frame_free` leave every
-- structure's count, number and links, and the free list, as they were. The frame is not freed.
pub frame_ref-frame_free :
    (v : Vm) (frame : ℕ) (ps : List ℕ) (fs : ℕ)
    → InUse v frame ps fs
    → Ensures
        ((frame_ref frame >> frame_free frame) v)
        (λ _ w. ((p : ℕ) → w.frames p ≡ v.frames p) × (w ≡ record v { frames = w.frames }))
frame_ref-frame_free v frame ps fs u =
    let c = ((v.frames fs).refc + 1) % u32 in
    let v' = recount fs c v in
    let more : (v'.frames fs).refc ≡ (v.frames fs).refc + 1 = ground (arith, u.bounded) in
    let again : frame_find frame v' ≡ ok fs v' =
      frame_find-lookup v' frame ps u.few (recount-IsHashed fs c v (frame / page_size) ps u.hashed)
      ∙ ap (λ p. ok p v') (recount-lookup fs c v (frame / page_size) ps ∙ u.found) in
    rw
      (
        frame_ref-recount v frame fs u.ne_null (InUse-find v frame ps fs u),
        frame_free-recount v' frame fs u.ne_null (omega (arith, more, u.counted)) again,
      )
      (λ p. recount-back v fs p u.bounded, refl)
