-- ===== src/System/Threads/Reaper.antt =====
-- The reaper of src/system/init.c, through the kernel calls that it makes.
use pinion.Base.{
  update, ℕ, ◌≡◌, refl, ap, ◌∙◌, sym, subst, ◌≢◌, arith, List, ◌∷◌, Ensures, Ensures-bind,
  Ensures-mono, bit_and,
}
use pinion.Vm.{null}
use pinion.Kernel.{Thread, Kernel, ts_paused, tf_user}
use pinion.Thread.Links.{IsQueue-same}
use pinion.Thread.Event.Fifo.{Names}
use pinion.Thread.Dead.Rendezvous.{IsDead, deadlink_of}
use pinion.Kcall.Threads.{kcall_getdead, kcall_reap}
use pinion.Kcall.Threads.Reap.{Told, Reaped, kcall_getdead-Told, kcall_reap-Reaped}
use pinion.Kcall.Dispatch.{getdead, reap, perform, decode}
use pinion.System.Calls.{t_getdead, t_reap}
use pinion.System.Calls.Enter.{entering, call_kernel-perform}
use pinion.System.Threads.{reaper_round}

-- A call's registers are the caller's alone.
entering-IsDead :
    (k : Kernel) (image call a b c : ℕ) (xs : List ℕ)
    → IsDead k xs
    → IsDead (entering k image call a b c) xs
entering-IsDead k image call a b c xs q =
    IsQueue-same (deadlink_of k) _ k.dead_tail k.dead_head xs (λ p i. ground arith) q

-- `__t_getdead` while a thread is dead.
t_getdead-Told :
    (k : Kernel) (image x : ℕ) (xs : List ℕ)
    → image ≢ null
    → bit_and (k.mem image).flags tf_user ≡ 0
    → x ≢ image
    → IsDead k (x ∷ xs)
    → Ensures
        (t_getdead image k)
        (λ r l. (r ≡ (k.mem x).id) × Told (entering k image 0x0A 0 0 0) image (k.mem x).id xs l)
unfolding t_getdead perform decode
t_getdead-Told k image x xs n system apart q =
    let k' = entering k image 0x0A 0 0 0 in
    let same : (k'.mem x).id ≡ (k.mem x).id = ground (arith, apart) in
    call_kernel-perform k image 0x0A 0 0 0 getdead _ n system refl (
      Ensures-mono _ _ (kcall_getdead image k')
        (kcall_getdead-Told k' image x xs n apart (entering-IsDead k image 0x0A 0 0 0 (x ∷ xs) q))
        (λ _ l h. (h.eax ∙ same, subst (λ i. Told k' image i xs l) same h)))

-- `__t_reap` of a paused thread without a place for its state.
t_reap-Reaped :
    (k : Kernel) (image x id : ℕ)
    → image ≢ null
    → bit_and (k.mem image).flags tf_user ≡ 0
    → x ≢ image
    → Names k id x
    → (k.mem x).id ≡ id
    → (k.mem x).state ≡ ts_paused
    → Ensures
        (t_reap image id 0 k)
        (λ r l. (r ≡ 0) × Reaped (entering k image 0x0B id 0 0) image x id l)
unfolding t_reap perform decode
t_reap-Reaped k image x id n system apart v own paused =
    let k' = entering k image 0x0B id 0 0 in
    let ebx : (k'.mem image).ebx ≡ id = ground arith in
    let ecx : (k'.mem image).ecx ≡ null = ground arith in
    let own' : (k'.mem x).id ≡ id = ground (arith, apart, own) in
    let paused' : (k'.mem x).state ≡ ts_paused = ground (arith, apart, paused) in
    let v' : Names k' id x = record { valid = v.valid; entry = v.entry; ne_null = v.ne_null } in
    call_kernel-perform k image 0x0B id 0 0 reap _ n system refl (
      Ensures-mono _ _ (kcall_reap image k')
        (kcall_reap-Reaped k' image x n apart (subst (λ i. Names k' i x) (sym ebx) v')
          (own' ∙ sym ebx) ecx paused')
        (λ _ l h. (h.eax, subst (λ i. Reaped k' image x i l) ebx h)))

-- A round of the reaper, in the system layer, while threads are dead: the one that has been dead the
-- longest, if it is paused and its ID names it, is reaped. No thread has that ID any more, the other
-- dead threads wait in order, all other IDs stay, and the result is 0.
pub reaper_round-Reaped :
    (k : Kernel) (image x : ℕ) (xs : List ℕ)
    → image ≢ null
    → bit_and (k.mem image).flags tf_user ≡ 0
    → x ≢ image
    → IsDead k (x ∷ xs)
    → Names k (k.mem x).id x
    → (k.mem x).state ≡ ts_paused
    → Ensures (reaper_round image k) (λ r l.
      (r ≡ 0)
      × IsDead l xs
      × ((i : ℕ) → l.thread_table i ≡ update k.thread_table (k.mem x).id null i))
unfolding reaper_round
reaper_round-Reaped k image x xs n system apart q v paused =
    let id = (k.mem x).id in
    let k' = entering k image 0x0A 0 0 0 in
    Ensures-bind (λ r l. (r ≡ id) × Told k' image id xs l) _ (t_getdead image k) _
      (t_getdead-Told k image x xs n system apart q)
      (λ r l h.
        let told = h.1 in
        let kept : l.mem x ≡ k.mem x = told.others x apart ∙ ground (arith, apart) in
        let flags : (l.mem image).flags ≡ (k.mem image).flags = told.flags ∙ ground arith in
        let system' : bit_and (l.mem image).flags tf_user ≡ 0 =
          ap (λ f. bit_and f tf_user) flags ∙ system in
        let v' : Names l id x = record {
          valid = v.valid;
          entry = ap (λ (f : ℕ → ℕ). f id) told.table ∙ v.entry;
          ne_null = v.ne_null;
        } in
        let own : (l.mem x).id ≡ id = ap (λ (t : Thread). t.id) kept in
        let dead : (l.mem x).state ≡ ts_paused = ap (λ (t : Thread). t.state) kept ∙ paused in
        let goal = λ (i : ℕ). Ensures (t_reap image i 0 l) (λ r m.
          (r ≡ 0) × IsDead m xs × ((j : ℕ) → m.thread_table j ≡ update k.thread_table id null j)) in
        subst goal (sym h.0) (
          Ensures-mono _ _ (t_reap image id 0 l)
            (t_reap-Reaped l image x id n system' apart v' own dead)
            (λ r m g. (
              g.0,
              g.1.dead xs (entering-IsDead l image 0x0B id 0 0 xs told.dead),
              λ j. g.1.table j ∙ ap (λ (f : ℕ → ℕ). update f id null j) told.table,
            ))))
