-- ===== src/Interrupt/Fault.antt =====
-- A page fault in src/kernel/fault.c, and what it leaves for the debugger.
use pinion.Base.{
  List, [], ◌∷◌, ◌++◌, ◌∉◌, Ensures-and, Ensures-mono, ℕ, ◌≡◌, ◌≢◌, ◌∙◌, arith, bit_and, false,
  Ensures, Ensures-bind, ◌==◌, update, ==_ne, ap,
}
use pinion.Vm.{null}
use pinion.Kernel.{Kernel, load, edit, ts_paused, fv_page}
use pinion.Thread.Table.{thread_save}
use pinion.Thread.Table.Load.{SameButCpu, thread_save-active}
use pinion.Thread.Fault.{fault_push, fault_enqueue}
use pinion.Thread.Sched.Fifo.{IsSched}
use pinion.Thread.Fault.Pull.{IsFaulty}
use pinion.Thread.Fault.Push.{faultlink_of}
use pinion.Interrupt.{fault_page}
use pinion.Interrupt.Entry.Fault.{fault_page-Suspended}

fault_push-keeps :
    (k : Kernel) (t : ℕ)
    → t ≢ null
    → k.debug_tail ≡ null
    → Ensures
        (fault_push t k)
        (λ r l. ((l.mem t).fault ≡ (k.mem t).fault) × ((l.mem t).fault_addr ≡ (k.mem t).fault_addr))
unfolding fault_push fault_enqueue edit
fault_push-keeps k t n idle = ground (arith, idle)

-- `l` when the page fault of `t` in `k` has been written to it.
abbrev suspended : ℕ → Kernel → Kernel → Kernel
suspended t k l = record l {
  mem =
      update l.mem t (record (l.mem t) { fault_addr = k.cr2; fault = fv_page; state = ts_paused });
}

fault_page-records :
    (k : Kernel) (t : ℕ)
    → t ≢ null
    → bit_and (k.mem t).cs 0x3 ≢ 0
    → k.debug_tail ≡ null
    → Ensures (fault_page t k) (λ _ l. ((l.mem t).fault ≡ fv_page) × ((l.mem t).fault_addr ≡ k.cr2))
unfolding fault_page load edit
fault_page-records k t n user idle =
    let ring : (bit_and (k.mem t).cs 0x3 == 0) ≡ false = ground (arith, user) in
    rw (==_ne t null n, ring)
      (Ensures-bind (λ r l. (l.active_thread ≡ null) × SameButCpu k l) _ (thread_save t k) _
        (thread_save-active t k)
        (λ r l h.
          let no_debugger : l.debug_tail ≡ null = ap (λ (m : Kernel). m.debug_tail) h.1 ∙ idle in
          rw (==_ne t null n) (
            Ensures-bind _ _ (fault_push t (suspended t k l)) _
              (fault_push-keeps (suspended t k l) t n no_debugger)
              (λ r m g. (g.0 ∙ ground arith, g.1 ∙ ground arith)))))

-- The thread `t` is paused and, in the fault queue, behind `xs`; it tells of a page fault at `addr`; and
-- nothing runs.
pub record Reported (t addr : ℕ) (xs ys : List ℕ) (l : Kernel) : Type 0 where
  pub faulty : IsFaulty l (xs ++ t ∷ [])
  pub sched : IsSched l ys
  pub state : (l.mem t).state ≡ ts_paused
  pub fault : (l.mem t).fault ≡ fv_page
  pub fault_addr : (l.mem t).fault_addr ≡ addr
  pub active : l.active_thread ≡ null

-- A page fault of a thread whose code segment is not the kernel's (the low bits of `cs` are not 0),
-- while no debugger waits and the links of the threads outside the fault queue are clear: the thread is
-- paused and goes to the end of the fault queue, behind those that faulted before it, with the kind of
-- the fault and the address that it was at; it is no longer active, and the scheduler's queue stays.
pub fault_page-Reported :
    (k : Kernel) (t : ℕ) (xs ys : List ℕ)
    → t ≢ null
    → t ∉ xs
    → bit_and (k.mem t).cs 0x3 ≢ 0
    → k.debug_tail ≡ null
    → ((p : ℕ) → p ∉ xs → p ≢ null → faultlink_of k p ≡ null)
    → IsFaulty k xs
    → IsSched k ys
    → Ensures (fault_page t k) (λ _ l. Reported t k.cr2 xs ys l)
fault_page-Reported k t xs ys n out user idle clear q s =
    Ensures-mono _ _ (fault_page t k)
      (Ensures-and _ _ (fault_page t k) (fault_page-Suspended k t xs ys n out user idle clear q s)
        (fault_page-records k t n user idle))
      (λ _ l h. record {
        faulty = h.0.faulty;
        sched = h.0.sched;
        state = h.0.state;
        fault = h.1.0;
        fault_addr = h.1.1;
        active = h.0.active;
      })
