-- ===== src/Kcall/Threads/Reap.antt =====
-- KCALL_GETDEAD and KCALL_REAP of src/kernel/kcall.c.
use pinion.Base.{
  ℕ, ◌≡◌, refl, ap, ◌∙◌, ◌≢◌, arith, List, ◌∷◌, Ensures, Ensures-mono, ◌>>◌, ◌==◌, ==_ne, ==_refl,
  update, Bool-cases, inl, inr, true,
}
use pinion.Vm.{null}
use pinion.Vm.Heap.{heap_free, find_bucket}
use pinion.Kernel.{Kernel, load, edit, ts_paused}
use pinion.Thread.Links.{IsQueue-same, IsQueue-tail}
use pinion.Thread.Table.{thread_kill}
use pinion.Thread.Event.Fifo.{Names, thread_get-entry}
use pinion.Thread.Dead.Rendezvous.{IsDead, deadlink_of, pulled, dead_pull-pulled}
use pinion.Kcall.Threads.{set_eax, kcall_getdead, kcall_reap}

-- `l` is `k` but for the dead queue, which holds `xs`, and the caller, who is told `id`.
pub record Told (k : Kernel) (image id : ℕ) (xs : List ℕ) (l : Kernel) : Type 0 where
  pub eax : (l.mem image).eax ≡ id
  pub dead : IsDead l xs
  pub flags : (l.mem image).flags ≡ (k.mem image).flags
  pub table : l.thread_table ≡ k.thread_table
  pub others : (p : ℕ) → p ≢ image → l.mem p ≡ k.mem p

pub kcall_getdead-Told :
    (k : Kernel) (image x : ℕ) (xs : List ℕ)
    → image ≢ null
    → x ≢ image
    → IsDead k (x ∷ xs)
    → Ensures (kcall_getdead image k) (λ _ l. Told k image (k.mem x).id xs l)
unfolding kcall_getdead load set_eax edit
kcall_getdead-Told k image x xs n apart q =
    let some : k.dead_tail ≢ null = ground (arith, q.chain.0, q.chain.1) in
    rw (==_ne k.dead_tail null some, dead_pull-pulled k some, ==_ne k.dead_tail null some)
      (rw (==_ne image null n) (record {
        eax = rw (==_refl image) (ap (λ (p : ℕ). (k.mem p).id) q.chain.0);
        dead =
            IsQueue-same (deadlink_of (pulled k)) _ _ _ xs (λ a i. ground arith)
              (IsQueue-tail (deadlink_of k) k.dead_tail k.dead_head x xs q);
        flags = ground arith;
        table = refl;
        others = λ p ne. ground arith;
      }))

-- `l` is `k` without the thread `target` of ID `id`, and the caller told 0.
pub record Reaped (k : Kernel) (image target id : ℕ) (l : Kernel) : Type 0 where
  pub eax : (l.mem image).eax ≡ 0
  pub ebx : (l.mem image).ebx ≡ (k.mem image).ebx
  pub table : (i : ℕ) → l.thread_table i ≡ update k.thread_table id null i
  pub dead : (xs : List ℕ) → IsDead k xs → IsDead l xs

-- `thread_kill` of a thread: its table entry is cleared, and no link of the dead queue changes.
record Killed (k : Kernel) (target : ℕ) (l : Kernel) : Type 0 where
  table : l.thread_table ≡ update k.thread_table (k.mem target).id null
  eax : (p : ℕ) → (l.mem p).eax ≡ (k.mem p).eax
  ebx : (p : ℕ) → (l.mem p).ebx ≡ (k.mem p).ebx
  links : (p : ℕ) → (l.mem p).next_dead ≡ (k.mem p).next_dead
  ends : (l.dead_tail ≡ k.dead_tail) × (l.dead_head ≡ k.dead_head)

thread_kill-Killed :
    (k : Kernel) (target : ℕ)
    → target ≢ null
    → Ensures (thread_kill target k) (λ _ l. Killed k target l)
unfolding thread_kill load edit heap_free find_bucket
thread_kill-Killed k target n = elim (Bool-cases ((k.mem target).fxdata == null)) [
  | inl none ↦
      rw (==_ne target null n, none)
        (record {
          table = refl;
          eax = λ p. refl;
          ebx = λ p. refl;
          links = λ p. refl;
          ends = (refl, refl);
        })
  | inr some ↦
      rw (==_ne target null n, some)
        (rw (==_ne target null n) (record {
          table = refl;
          eax = λ p. ground arith;
          ebx = λ p. ground arith;
          links = λ p. ground arith;
          ends = (refl, refl);
        }))
]

kcall_reap-kills :
    (k : Kernel) (image target : ℕ)
    → image ≢ null
    → Names k (k.mem image).ebx target
    → (k.mem image).ecx ≡ null
    → (k.mem target).state ≡ ts_paused
    → kcall_reap image k ≡ (set_eax image 0 >> thread_kill target) k
unfolding kcall_reap load set_eax edit
kcall_reap-kills k image target n v none paused =
    let skip : ((k.mem image).ecx == null) ≡ true = ap (λ (p : ℕ). p == null) none in
    let dead : ((k.mem target).state == ts_paused) ≡ true = ap (λ (p : ℕ). p == ts_paused) paused in
    rw
      (
        ==_ne image null n,
        thread_get-entry k (k.mem image).ebx target v,
        ==_ne target null v.ne_null,
        dead,
        skip,
      )
      (rw (==_ne image null n))

-- KCALL_REAP of another thread that is paused, without a place for its state: no thread has its ID
-- any more, the caller gets 0, and the other IDs and the dead queue stay.
pub kcall_reap-Reaped :
    (k : Kernel) (image target : ℕ)
    → image ≢ null
    → target ≢ image
    → Names k (k.mem image).ebx target
    → (k.mem target).id ≡ (k.mem image).ebx
    → (k.mem image).ecx ≡ null
    → (k.mem target).state ≡ ts_paused
    → Ensures (kcall_reap image k) (λ _ l. Reaped k image target (k.mem image).ebx l)
unfolding set_eax edit
kcall_reap-Reaped k image target n apart v id none paused =
    let m = record k { mem = update k.mem image (record (k.mem image) { eax = 0 }) } in
    rw (kcall_reap-kills k image target n v none paused, ==_ne image null n)
      (Ensures-mono (λ _ l. Killed m target l) _ (thread_kill target m)
        (thread_kill-Killed m target v.ne_null)
        (λ _ l h.
          let own : (m.mem target).id ≡ (k.mem image).ebx = ground (arith, id, apart) in
          record {
            eax = h.eax image ∙ ground arith;
            ebx = h.ebx image ∙ ground arith;
            table = λ i.
                ap (λ (f : ℕ → ℕ). f i) h.table
                ∙ ap (λ (d : ℕ). update k.thread_table d null i) own;
            dead = λ xs q.
                rw (h.ends.0, h.ends.1)
                  (IsQueue-same (deadlink_of k) (deadlink_of l) k.dead_tail k.dead_head xs
                    (λ a i. h.links a ∙ ground arith) q);
          }))
