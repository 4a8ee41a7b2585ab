-- ===== src/Thread/Fault/Pull.antt =====
-- `fault_pull` of src/kernel/thread.c against the list of faulting threads.
use pinion.Base.{ℕ, ◌≡◌, ◌∙◌, ◌≢◌, List, ◌∷◌, arith, Ensures, Ensures-mono}
use pinion.Vm.{null}
use pinion.Kernel.{Kernel}
use pinion.Thread.Links.{IsQueue}
use pinion.Thread.Fault.{fault_pull}

-- The faulting threads that no debugger has been told of, the oldest first.
abbrev pub IsFaulty : Kernel → List ℕ → Type 0
IsFaulty k xs = IsQueue (λ p. (k.mem p).next_fault) k.fault_tail k.fault_head xs

pull-next :
    (k : Kernel)
    → k.fault_tail ≢ null
    → Ensures
        (fault_pull k)
        (λ r l. (r ≡ k.fault_tail) × (l.fault_tail ≡ (k.mem k.fault_tail).next))
unfolding fault_pull
pull-next k n = ground arith

-- `fault_pull` returns the thread that faulted first, but with several in the queue, unless the
-- scheduler's link of that thread names the second one, what is left is not the queue of the others.
pub fault_pull-wrong_link :
    (k : Kernel) (x y : ℕ) (xs : List ℕ)
    → IsFaulty k (x ∷ y ∷ xs)
    → (k.mem x).next ≢ y
    → Ensures (fault_pull k) (λ r l. (r ≡ x) × (¬ IsFaulty l (y ∷ xs)))
fault_pull-wrong_link k x y xs q off =
    Ensures-mono (λ r l. (r ≡ k.fault_tail) × (l.fault_tail ≡ (k.mem k.fault_tail).next)) _
      (fault_pull k) (pull-next k (ground (arith, q.chain.0, q.chain.1)))
      (λ r l h. (h.0 ∙ q.chain.0, λ w. off (ground (arith, h.1, q.chain.0, w.chain.0))))
