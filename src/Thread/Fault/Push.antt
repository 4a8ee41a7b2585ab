-- ===== src/Thread/Fault/Push.antt =====
-- `fault_push` of src/kernel/thread.c while no debugger waits.
use pinion.Base.{
  ◌∙◌, update_field, refl, Bool-cases, inl, inr, ℕ, ◌≡◌, ◌≢◌, sym, subst, arith, List, [], ◌∷◌,
  ◌++◌, ◌∉◌, ok, ◌==◌, if◌then◌else◌, update, mem-ne, last_or, last_or-mem,
}
use pinion.Vm.{null}
use pinion.Kernel.{Thread, Kernel, edit}
use pinion.Thread.Links.{IsQueue-snoc}
use pinion.Thread.Fault.{fault_push, fault_enqueue}
use pinion.Thread.Fault.Pull.{IsFaulty}

abbrev pub faultlink_of : Kernel → ℕ → ℕ
faultlink_of k p = (k.mem p).next_fault

-- What `fault_enqueue` makes of the state.
abbrev pub faulted : ℕ → Kernel → Kernel
faulted t k =
    let m = update k.mem k.fault_head (record (k.mem k.fault_head) { next_fault = t }) in
    record k {
      mem = if k.fault_head == null then k.mem else update m t (record (m t) { next_fault = null });
      fault_tail = if k.fault_head == null then t else k.fault_tail;
      fault_head = t;
    }

pub fault_push-faulted :
    (k : Kernel) (t : ℕ) → t ≢ null → k.debug_tail ≡ null → fault_push t k ≡ ok 0 (faulted t k)
unfolding fault_push fault_enqueue edit
fault_push-faulted k t n none_waits = ground arith

pub faulted-IsFaulty :
    (k : Kernel) (t : ℕ) (xs : List ℕ)
    → t ≢ null
    → t ∉ xs
    → faultlink_of k t ≡ null
    → IsFaulty k xs
    → IsFaulty (faulted t k) (xs ++ t ∷ [])
faulted-IsFaulty k t xs n out clear q =
    IsQueue-snoc (faultlink_of k) (faultlink_of (faulted t k)) k.fault_tail k.fault_head
      (faulted t k).fault_tail t xs n out (ground arith) (ground (arith, clear))
      (λ full apart. ground arith) (λ c ne off. ground arith) q

-- The links of the others that are not in the queue.
pub faulted_link :
    (k : Kernel) (t : ℕ) (xs : List ℕ) (p : ℕ)
    → faultlink_of k t ≡ null
    → IsFaulty k xs
    → p ∉ xs
    → p ≢ null
    → faultlink_of k p ≡ null
    → faultlink_of (faulted t k) p ≡ null
faulted_link k t [] p here q out n clear = ground (arith, q.last)
faulted_link k t (x ∷ xs) p here q out n clear =
    let back : p ≢ k.fault_head =
      subst (λ b. p ≢ b) (sym q.last) (mem-ne p (last_or x xs) (x ∷ xs) out (last_or-mem x xs)) in
    ground arith

-- Only the links of the fault queue change.
pub faulted_field :
    (g : Thread → ℕ) (k : Kernel) (t p : ℕ)
    → ((s : Thread) (v : ℕ) → g (record s { next_fault = v }) ≡ g s)
    → g ((faulted t k).mem p) ≡ g (k.mem p)
faulted_field g k t p keeps = elim (Bool-cases (k.fault_head == null)) [
  | inl e ↦ rw e refl
  | inr ne ↦ rw ne (
      update_field g (λ s. record s { next_fault = null })
        (update k.mem k.fault_head (record (k.mem k.fault_head) { next_fault = t })) t p
        (λ s. keeps s null)
      ∙ update_field g (λ s. record s { next_fault = t }) k.mem k.fault_head p (λ s. keeps s t))
]
