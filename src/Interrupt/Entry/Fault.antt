-- ===== src/Interrupt/Entry/Fault.antt =====
-- A page fault of src/kernel/fault.c while no debugger waits, among the threads that are scheduled.
use pinion.Base.{
  update_field, update_self, update_ne, ℕ, ◌≡◌, refl, ap, ◌∙◌, ◌≢◌, arith, List, [], ◌∷◌, ◌++◌, ◌∉◌,
  false, bit_and, Ensures, Ensures-bind, ◌==◌, ==_ne, update, has-append,
}
use pinion.Vm.{null}
use pinion.Kernel.{Thread, Kernel, load, edit, ts_paused, fv_page}
use pinion.Thread.Table.{thread_save}
use pinion.Thread.Table.Load.{SameButCpu, thread_save-active}
use pinion.Thread.Links.{IsQueue-same}
use pinion.Thread.Sched.Fifo.{IsSched, next_of}
use pinion.Thread.Fault.Pull.{IsFaulty}
use pinion.Thread.Fault.Push.{
  faultlink_of, faulted, fault_push-faulted, faulted-IsFaulty, faulted_link, faulted_field,
}
use pinion.Interrupt.{fault_page}

-- The fault is written to the thread.
abbrev at_fault : ℕ → Thread → Thread
at_fault addr s = record s { fault_addr = addr; fault = fv_page; state = ts_paused }

abbrev suspended : ℕ → ℕ → Kernel → Kernel
suspended t addr k = record k { mem = update k.mem t (at_fault addr (k.mem t)) }

-- `l` is `k` with the thread `t` paused and behind `xs` in the fault queue.
pub record Suspended (k : Kernel) (t : ℕ) (xs ys : List ℕ) (l : Kernel) : Type 0 where
  pub active : l.active_thread ≡ null
  pub table : l.thread_table ≡ k.thread_table
  pub sched : IsSched l ys
  pub state : (l.mem t).state ≡ ts_paused
  pub kept : (p : ℕ) → p ≢ t → (l.mem p).state ≡ (k.mem p).state
  pub evqueue : l.evqueue ≡ k.evqueue
  pub irqstate : l.irqstate ≡ k.irqstate
  pub link : (p : ℕ) → (l.mem p).next_evqueue ≡ (k.mem p).next_evqueue
  pub event : (p : ℕ) → (l.mem p).event ≡ (k.mem p).event
  pub id : (p : ℕ) → (l.mem p).id ≡ (k.mem p).id
  pub flags : (p : ℕ) → (l.mem p).flags ≡ (k.mem p).flags
  pub cs : (p : ℕ) → (l.mem p).cs ≡ (k.mem p).cs
  pub handlers : l.int_handlers ≡ k.int_handlers
  pub ticks : l.ticks ≡ k.ticks
  pub freq : l.pit_freq ≡ k.pit_freq
  pub debug_tail : l.debug_tail ≡ k.debug_tail
  pub faulty : IsFaulty l (xs ++ t ∷ [])
  pub clear : (p : ℕ) → p ∉ (xs ++ t ∷ []) → p ≢ null → faultlink_of l p ≡ null

-- The state after the push.
abbrev pushed_fault : ℕ → ℕ → Kernel → Kernel
pushed_fault t addr k = faulted t (suspended t addr k)

-- What the fault and the push keep of each thread.
pushed_field :
    (g : Thread → ℕ) (k : Kernel) (t addr p : ℕ)
    → ((s : Thread) (v : ℕ) → g (record s { next_fault = v }) ≡ g s)
    → ((s : Thread) → g (at_fault addr s) ≡ g s)
    → g ((pushed_fault t addr k).mem p) ≡ g (k.mem p)
pushed_field g k t addr p h h' =
    faulted_field g (suspended t addr k) t p h ∙ update_field g (at_fault addr) k.mem t p h'

pushed_state :
    (k : Kernel) (t addr p : ℕ)
    → ((pushed_fault t addr k).mem p).state ≡ ((suspended t addr k).mem p).state
pushed_state k t addr p =
    faulted_field (λ (s : Thread). s.state) (suspended t addr k) t p (λ s v. refl)

suspended_here : (k : Kernel) (t addr : ℕ) → ((suspended t addr k).mem t).state ≡ ts_paused
suspended_here k t addr =
    ap (λ (s : Thread). s.state) (update_self k.mem t (at_fault addr (k.mem t)))

suspended_kept :
    (k : Kernel) (t addr p : ℕ) → p ≢ t → ((suspended t addr k).mem p).state ≡ (k.mem p).state
suspended_kept k t addr p ne =
    ap (λ (s : Thread). s.state) (update_ne k.mem t p (at_fault addr (k.mem t)) ne)

suspended_link :
    (k : Kernel) (t addr p : ℕ) → faultlink_of (suspended t addr k) p ≡ faultlink_of k p
suspended_link k t addr p =
    update_field (λ (s : Thread). s.next_fault) (at_fault addr) k.mem t p (λ s. refl)

pushed-IsFaulty :
    (k : Kernel) (t addr : ℕ) (xs : List ℕ)
    → t ≢ null
    → t ∉ xs
    → faultlink_of k t ≡ null
    → IsFaulty k xs
    → IsFaulty (pushed_fault t addr k) (xs ++ t ∷ [])
pushed-IsFaulty k t addr xs n out clear q =
    faulted-IsFaulty (suspended t addr k) t xs n out (suspended_link k t addr t ∙ clear) (
      IsQueue-same (faultlink_of k) (faultlink_of (suspended t addr k)) _ _ xs
        (λ p i. suspended_link k t addr p) q)

pushed_link :
    (k : Kernel) (t addr : ℕ) (xs : List ℕ) (p : ℕ)
    → faultlink_of k t ≡ null
    → IsFaulty k xs
    → p ∉ (xs ++ t ∷ [])
    → p ≢ null
    → ((o : ℕ) → o ∉ xs → o ≢ null → faultlink_of k o ≡ null)
    → faultlink_of (pushed_fault t addr k) p ≡ null
pushed_link k t addr xs p here q off m clear =
    let apart : p ∉ xs = ground (arith, has-append p xs (t ∷ []), off) in
    faulted_link (suspended t addr k) t xs p (suspended_link k t addr t ∙ here)
      (IsQueue-same (faultlink_of k) (faultlink_of (suspended t addr k)) _ _ xs
        (λ o i. suspended_link k t addr o) q)
      apart m (suspended_link k t addr p ∙ clear p apart m)

pushed-Suspended :
    (k : Kernel) (t addr : ℕ) (xs ys : List ℕ)
    → t ≢ null
    → t ∉ xs
    → k.active_thread ≡ null
    → ((p : ℕ) → p ∉ xs → p ≢ null → faultlink_of k p ≡ null)
    → IsFaulty k xs
    → IsSched k ys
    → Suspended k t xs ys (pushed_fault t addr k)
pushed-Suspended k t addr xs ys n out none clear q s =
    let field =
      λ (g : Thread → ℕ) (h : (s : Thread) (v : ℕ) → g (record s { next_fault = v }) ≡ g s)
          (h' : (s : Thread) → g (at_fault addr s) ≡ g s) (p : ℕ).
        pushed_field g k t addr p h h' in
    record {
      active = none;
      table = refl;
      sched =
          IsQueue-same (next_of k) _ _ _ ys
            (λ p i. field (λ (o : Thread). o.next) (λ s v. refl) (λ s. refl) p) s;
      state = pushed_state k t addr t ∙ suspended_here k t addr;
      kept = λ p ne. pushed_state k t addr p ∙ suspended_kept k t addr p ne;
      evqueue = refl;
      irqstate = refl;
      link = field (λ (o : Thread). o.next_evqueue) (λ s v. refl) (λ s. refl);
      event = field (λ (o : Thread). o.event) (λ s v. refl) (λ s. refl);
      id = field (λ (o : Thread). o.id) (λ s v. refl) (λ s. refl);
      flags = field (λ (o : Thread). o.flags) (λ s v. refl) (λ s. refl);
      cs = field (λ (o : Thread). o.cs) (λ s v. refl) (λ s. refl);
      handlers = refl;
      ticks = refl;
      freq = refl;
      debug_tail = refl;
      faulty = pushed-IsFaulty k t addr xs n out (clear t out n) q;
      clear = λ p off m. pushed_link k t addr xs p (clear t out n) q off m clear;
    }

SameButCpu-Suspended :
    (k l m : Kernel) (t : ℕ) (xs ys : List ℕ)
    → SameButCpu k l
    → Suspended l t xs ys m
    → Suspended k t xs ys m
SameButCpu-Suspended k l m t xs ys same h =
    let em : l.mem ≡ k.mem = ap (λ (x : Kernel). x.mem) same in
    record {
      active = h.active;
      table = h.table ∙ ap (λ (x : Kernel). x.thread_table) same;
      sched = h.sched;
      state = h.state;
      kept = λ p ne. h.kept p ne ∙ ap (λ (f : ℕ → Thread). (f p).state) em;
      evqueue = h.evqueue ∙ ap (λ (x : Kernel). x.evqueue) same;
      irqstate = h.irqstate ∙ ap (λ (x : Kernel). x.irqstate) same;
      link = λ p. h.link p ∙ ap (λ (f : ℕ → Thread). (f p).next_evqueue) em;
      event = λ p. h.event p ∙ ap (λ (f : ℕ → Thread). (f p).event) em;
      id = λ p. h.id p ∙ ap (λ (f : ℕ → Thread). (f p).id) em;
      flags = λ p. h.flags p ∙ ap (λ (f : ℕ → Thread). (f p).flags) em;
      cs = λ p. h.cs p ∙ ap (λ (f : ℕ → Thread). (f p).cs) em;
      handlers = h.handlers ∙ ap (λ (x : Kernel). x.int_handlers) same;
      ticks = h.ticks ∙ ap (λ (x : Kernel). x.ticks) same;
      freq = h.freq ∙ ap (λ (x : Kernel). x.pit_freq) same;
      debug_tail = h.debug_tail ∙ ap (λ (x : Kernel). x.debug_tail) same;
      faulty = h.faulty;
      clear = h.clear;
    }

-- A page fault of a thread whose code segment is not the kernel's, while no debugger waits.
pub fault_page-Suspended :
    (k : Kernel) (t : ℕ) (xs ys : List ℕ)
    → t ≢ null
    → t ∉ xs
    → bit_and (k.mem t).cs 0x3 ≢ 0
    → k.debug_tail ≡ null
    → ((p : ℕ) → p ∉ xs → p ≢ null → faultlink_of k p ≡ null)
    → IsFaulty k xs
    → IsSched k ys
    → Ensures (fault_page t k) (λ _. Suspended k t xs ys)
unfolding fault_page load edit
fault_page-Suspended k t xs ys n out user idle clear q s =
    let ring : (bit_and (k.mem t).cs 0x3 == 0) ≡ false = ground (arith, user) in
    rw (==_ne t null n, ring)
      (Ensures-bind (λ r l. (l.active_thread ≡ null) × SameButCpu k l) (λ _. Suspended k t xs ys)
        (thread_save t k) _ (thread_save-active t k)
        (λ _ l h.
          let em : l.mem ≡ k.mem = ap (λ (x : Kernel). x.mem) h.1 in
          let eh : l.fault_head ≡ k.fault_head = ap (λ (x : Kernel). x.fault_head) h.1 in
          let et : l.fault_tail ≡ k.fault_tail = ap (λ (x : Kernel). x.fault_tail) h.1 in
          let sh : l.sched_head ≡ k.sched_head = ap (λ (x : Kernel). x.sched_head) h.1 in
          let st : l.sched_tail ≡ k.sched_tail = ap (λ (x : Kernel). x.sched_tail) h.1 in
          let none_waits : (suspended t k.cr2 l).debug_tail ≡ null =
            ap (λ (x : Kernel). x.debug_tail) h.1 ∙ idle in
          rw (==_ne t null n) (
            rw (fault_push-faulted (suspended t k.cr2 l) t n none_waits) (
              SameButCpu-Suspended k l (pushed_fault t k.cr2 l) t xs ys h.1 (
                pushed-Suspended l t k.cr2 xs ys n out h.0
                  (λ p off m. ap (λ (f : ℕ → Thread). (f p).next_fault) em ∙ clear p off m)
                  (rw (em, eh, et) q) (rw (em, sh, st) s))))))
