-- ===== src/Interrupt/Switch.antt =====
-- The choice of the next thread in `int_handler`, and the preemption in `timer_handler`, of
-- src/kernel/interrupt.c.
use pinion.Base.{
  ap, ==_ne, subst, pure, ◌>>◌, ℕ, ◌≡◌, refl, sym, ◌≢◌, Ensures, Ensures-bind, arith, List, ◌∷◌,
  ◌∉◌,
}
use pinion.Vm.{null}
use pinion.Kernel.{Kernel, load, edit, ts_running}
use pinion.Thread.Links.{IsQueue-same}
use pinion.Thread.Table.{thread_load}
use pinion.Thread.Table.Load.{SameButCpu, thread_load-active}
use pinion.Thread.Sched.Fifo.{IsSched, next_of}
use pinion.Thread.Sched.Remove.{remv-at-head, headless, headless-IsSched}
use pinion.Thread.Requeue.{Requeued, requeue-Requeued}
use pinion.Interrupt.{switch, preempt}

-- `l` runs thread `x`, and the queue holds the others.
abbrev pub Runs : Kernel → ℕ → List ℕ → ℕ → Kernel → Type 0
Runs k x xs r l =
    (r ≡ x)
    × (l.active_thread ≡ x)
    × ((l.mem x).state ≡ ts_running)
    × IsSched l xs
    × ((p : ℕ) → p ≢ x → l.mem p ≡ k.mem p)
    × (l.thread_table ≡ k.thread_table)

load_and_run :
    (k : Kernel) (x : ℕ) (xs : List ℕ)
    → x ≢ null
    → IsSched k xs
    → Ensures
        ((thread_load x >> (edit x (λ t. record t { state = ts_running }) >> pure x)) k)
        (Runs k x xs)
unfolding edit
load_and_run k x xs n q =
    Ensures-bind (λ r l. (l.active_thread ≡ x) × SameButCpu k l) (Runs k x xs) (thread_load x k) _
      (thread_load-active x k n)
      (λ r l h.
        let mem_kept : l.mem ≡ k.mem = ap (λ (m : Kernel). m.mem) h.1 in
        let head_kept : l.sched_head ≡ k.sched_head = ap (λ (m : Kernel). m.sched_head) h.1 in
        let tail_kept : l.sched_tail ≡ k.sched_tail = ap (λ (m : Kernel). m.sched_tail) h.1 in
        rw (==_ne x null n) (
          refl,
          h.0,
          ground arith,
          rw (mem_kept, head_kept, tail_kept)
              (IsQueue-same (next_of k) _ k.sched_head k.sched_tail xs (λ a i. ground arith) q),
          λ p ne. ground arith,
          ap (λ (m : Kernel). m.thread_table) h.1,
        ))

switch-from :
    (k : Kernel) (xs : List ℕ)
    → IsSched k (k.sched_head ∷ xs)
    → Ensures (switch k) (Runs k k.sched_head xs)
unfolding switch
switch-from k xs q =
    rw (==_ne k.sched_head null q.chain.1, remv-at-head k.sched_head k k.sched_head xs refl q)
      (load_and_run (headless k) k.sched_head xs q.chain.1 (headless-IsSched k k.sched_head xs q))

-- With no active thread, the thread that has waited longest in the scheduler's queue becomes the
-- active one and the running one; the others stay queued in order, and neither another
-- thread nor the table of threads changes.
pub switch-head :
    (k : Kernel) (x : ℕ) (xs : List ℕ) → IsSched k (x ∷ xs) → Ensures (switch k) (Runs k x xs)
switch-head k x xs q =
    let e : k.sched_head ≡ x = q.chain.0 in
    subst (λ y. Ensures (switch k) (Runs k y xs)) e
      (switch-from k xs (subst (λ y. IsSched k (y ∷ xs)) (sym e) q))

pub preempt-Requeued :
    (k : Kernel) (t : ℕ) (xs : List ℕ)
    → t ≢ null
    → t ∉ xs
    → (k.mem t).state ≡ ts_running
    → IsSched k xs
    → Ensures (preempt t k) (λ _. Requeued k t xs)
unfolding preempt load
preempt-Requeued k t xs n out running q =
    rw (==_ne t null n, running) (requeue-Requeued k t xs n out q)
