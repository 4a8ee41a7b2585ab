-- ===== src/Kcall/Threads/Rest.antt =====
-- KCALL_PAUSE of src/kernel/kcall.c on the calling thread itself.
use pinion.Base.{
  and_then_assoc, ℕ, ◌≡◌, refl, ap, ◌∙◌, ◌≢◌, List, ok, Ensures, Ensures-bind, Ensures-mono, ◌>>◌,
  ==_ne,
}
use pinion.Vm.{null}
use pinion.Kernel.{Thread, Kernel, load, ts_running, ts_paused, minus_one}
use pinion.Thread.Sched.Fifo.{IsSched}
use pinion.Thread.Table.{thread_get, thread_save}
use pinion.Thread.Table.Load.{SameButCpu, thread_save-active}
use pinion.Thread.Requeue.{SameButCpu-IsSched}
use pinion.Kcall.Threads.{set_eax, set_state, target_or_self, pause_target, kcall_pause}
use pinion.Kcall.Threads.Roundtrip.{settled}

target_or_self_self :
    (k : Kernel) (t : ℕ) → t ≢ null → (k.mem t).ebx ≡ minus_one → target_or_self t k ≡ ok t k
unfolding target_or_self load thread_get
target_or_self_self k t n self = rw (==_ne t null n, self) refl

pub pause_target-saves :
    (k : Kernel) (t : ℕ)
    → t ≢ null
    → (k.mem t).state ≡ ts_running
    → pause_target t t k ≡ (thread_save t >> (set_state t ts_paused >> set_eax t 0)) k
unfolding pause_target load
pause_target-saves k t n running =
    rw (==_ne t null n, running) (and_then_assoc (thread_save t k) _ _)

pub kcall_pause-saves :
    (k : Kernel) (t : ℕ)
    → t ≢ null
    → (k.mem t).ebx ≡ minus_one
    → kcall_pause t k ≡ pause_target t t k
unfolding kcall_pause
kcall_pause-saves k t n self = rw (target_or_self_self k t n self, ==_ne t null n)

-- `l` is `k` with no active thread and `t` paused.
pub record Rests (k : Kernel) (t : ℕ) (xs : List ℕ) (l : Kernel) : Type 0 where
  pub sched : IsSched l xs
  pub state : (l.mem t).state ≡ ts_paused
  pub active : l.active_thread ≡ null
  pub table : l.thread_table ≡ k.thread_table
  pub kept : (p : ℕ) → p ≢ t → (l.mem p).state ≡ (k.mem p).state

pub kcall_pause-Rests :
    (k : Kernel) (t : ℕ) (xs : List ℕ)
    → t ≢ null
    → (k.mem t).ebx ≡ minus_one
    → (k.mem t).state ≡ ts_running
    → IsSched k xs
    → Ensures (kcall_pause t k) (λ _. Rests k t xs)
kcall_pause-Rests k t xs n self running q =
    rw (kcall_pause-saves k t n self, pause_target-saves k t n running)
      (Ensures-bind (λ r l. (l.active_thread ≡ null) × SameButCpu k l) (λ _. Rests k t xs)
        (thread_save t k) _ (thread_save-active t k)
        (λ r l h.
          let same : l.mem ≡ k.mem = ap (λ (m : Kernel). m.mem) h.1 in
          Ensures-mono _ (λ _. Rests k t xs) ((set_state t ts_paused >> set_eax t 0) l)
            (settled l t t ts_paused xs n n (SameButCpu-IsSched k l xs h.1 q))
            (λ _ m g. record {
              sched = g.0;
              state = g.1;
              active = g.5 ∙ h.0;
              table = g.3 ∙ ap (λ (x : Kernel). x.thread_table) h.1;
              kept = λ p ne. g.6 p ne ∙ ap (λ (f : ℕ → Thread). (f p).state) same;
            })))
