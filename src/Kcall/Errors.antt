-- ===== src/Kcall/Errors.antt =====
-- The calls of src/kernel/kcall.c on a thread that does not exist any more.
use pinion.Base.{
  Ensures, Ensures-mono, Bool-cases, inl, inr, leb, ◌||◌, ◌^◌, ◌∙◌, update_self, ℕ, ◌≡◌, refl, ◌≢◌,
  arith, ok, crash, null_pointer, ==_ne, update, Run,
}
use pinion.Vm.{null}
use pinion.Kernel.{thread_count, Kernel, load, edit, minus_one, te_exist, ts_paused}
use pinion.Thread.Table.{thread_get}
use pinion.Thread.Event.Fifo.{Names}
use pinion.Kcall.Threads.{
  set_eax, target_or_self, kcall_pause, kcall_resume, kcall_getstate, kcall_reap,
}
use pinion.Kcall.Threads.Reap.{kcall_reap-Reaped}
use pinion.Kcall.Setstate.{kcall_setstate}

-- The call ends with `code` in the caller's `eax`, and nothing else changes.
abbrev pub Answers : Kernel → ℕ → ℕ → Run Kernel (Unit {0}) → Type 0
Answers k image code r =
    r ≡ ok tt (record k { mem = update k.mem image (record (k.mem image) { eax = code }) })

set_eax-Answers :
    (k : Kernel) (image code : ℕ) → image ≢ null → Answers k image code (set_eax image code k)
unfolding set_eax edit
set_eax-Answers k image code n = rw (==_ne image null n) refl

no_target :
    (k : Kernel) (image : ℕ)
    → image ≢ null
    → (k.mem image).ebx ≢ minus_one
    → thread_get (k.mem image).ebx k ≡ ok null k
    → target_or_self image k ≡ ok null k
unfolding target_or_self load
no_target k image n other none =
    rw (==_ne image null n, none, ==_ne (k.mem image).ebx minus_one other) refl

-- The calls with an ID in `ebx` that no thread has, and that is not -1.
pub record Unknown (k : Kernel) (image : ℕ) : Type 0 where
  pub pause : Answers k image te_exist (kcall_pause image k)
  pub resume : Answers k image te_exist (kcall_resume image k)
  pub getstate : Answers k image te_exist (kcall_getstate image k)
  pub setstate : Answers k image te_exist (kcall_setstate image k)
  pub reap : kcall_reap image k ≡ crash null_pointer

calls-Unknown :
    (k : Kernel) (image : ℕ)
    → image ≢ null
    → (k.mem image).ebx ≢ minus_one
    → thread_get (k.mem image).ebx k ≡ ok null k
    → Unknown k image
unfolding kcall_pause kcall_resume kcall_getstate kcall_setstate kcall_reap load
calls-Unknown k image n other none =
    let target = no_target k image n other none in
    let answer = set_eax-Answers k image te_exist n in
    record {
      pause = rw target answer;
      resume = rw (==_ne image null n, none) answer;
      getstate = rw target answer;
      setstate = rw target answer;
      reap = rw (==_ne image null n, none) refl;
    }

thread_get-none : (k : Kernel) (id : ℕ) → k.thread_table id ≡ null → thread_get id k ≡ ok null k
unfolding thread_get
thread_get-none k id e = elim (Bool-cases (leb (2 ^ 31) id || leb thread_count id)) [
  | inl out ↦ rw out refl
  | inr inside ↦ rw (inside, e) refl
]

-- KCALL_REAP of another thread that is paused, without a place for its state, and then a second call of
-- the same caller with the same ID: to pause, to resume, to get or to set the state of the thread, the
-- call returns TE_EXIST and changes nothing; but to reap it again is an access through NULL in the
-- kernel.
pub kcall_reap-Unknown :
    (k : Kernel) (image target : ℕ)
    → image ≢ null
    → target ≢ image
    → Names k (k.mem image).ebx target
    → (k.mem target).id ≡ (k.mem image).ebx
    → (k.mem image).ecx ≡ null
    → (k.mem target).state ≡ ts_paused
    → Ensures (kcall_reap image k) (λ _ l. ((l.mem image).eax ≡ 0) × Unknown l image)
kcall_reap-Unknown k image target n apart v own none paused =
    let id = (k.mem image).ebx in
    Ensures-mono _ _ (kcall_reap image k)
      (kcall_reap-Reaped k image target n apart v own none paused)
      (λ _ l h.
        let gone : l.thread_table (l.mem image).ebx ≡ null =
          rw h.ebx (h.table id ∙ update_self k.thread_table id null) in
        let other : (l.mem image).ebx ≢ minus_one = rw h.ebx (omega (arith, v.valid)) in
        (h.eax, calls-Unknown l image n other (thread_get-none l (l.mem image).ebx gone)))
