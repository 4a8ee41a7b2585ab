-- ===== src/System/Calls/Kill.antt =====
-- `__t_kill` of src/system/kcalls.c on a thread that is paused already.
use pinion.Base.{
  Ensures-bind, false, ◌==◌, ℕ, ◌≡◌, refl, ◌≢◌, ◌⊎◌, inl, inr, arith, ok, Ensures, ==_ne, update,
  bit_and,
}
use pinion.Vm.{null}
use pinion.Kernel.{Kernel, load, edit, ts_paused, ts_pausedw, te_state, tf_user}
use pinion.Thread.Event.Fifo.{Names}
use pinion.Kcall.Threads.{pause_target, set_eax}
use pinion.Kcall.Threads.Roundtrip.{kcall_pause-target}
use pinion.Kcall.Dispatch.{pause, perform, decode}
use pinion.System.Calls.Enter.{entering, call_kernel-perform}
use pinion.System.Calls.{t_pause, t_kill}

pause_target-refused :
    (k : Kernel) (image target : ℕ)
    → image ≢ null
    → target ≢ null
    → (((k.mem target).state ≡ ts_paused) ⊎ ((k.mem target).state ≡ ts_pausedw))
    → pause_target image target k
      ≡ ok tt (record k { mem = update k.mem image (record (k.mem image) { eax = te_state }) })
unfolding pause_target load set_eax edit
pause_target-refused k image target n m (inl s) =
    rw (==_ne target null m, s) (rw (==_ne image null n) refl)
pause_target-refused k image target n m (inr s) =
    rw (==_ne target null m, s) (rw (==_ne image null n) refl)

t_pause-refused :
    (k : Kernel) (image thread target : ℕ)
    → image ≢ null
    → bit_and (k.mem image).flags tf_user ≡ 0
    → Names k thread target
    → target ≢ image
    → (((k.mem target).state ≡ ts_paused) ⊎ ((k.mem target).state ≡ ts_pausedw))
    → Ensures
        (t_pause image thread k)
        (λ r l. (r ≡ te_state) × (l.mem target ≡ k.mem target) × (l.info ≡ k.info))
unfolding t_pause perform decode
t_pause-refused k image thread target n system v other paused =
    let k' = entering k image 0x05 thread 0 0 in
    let kept : k'.mem target ≡ k.mem target = ground (arith, other) in
    let ebx : (k'.mem image).ebx ≡ thread = ground arith in
    let v' : Names k' (k'.mem image).ebx target =
      rw ebx (record { valid = v.valid; entry = v.entry; ne_null = v.ne_null }) in
    call_kernel-perform k image 0x05 thread 0 0 pause _ n system refl (
      rw
        (
          kcall_pause-target k' image target n v',
          pause_target-refused k' image target n v.ne_null (rw kept paused),
        )
        (ground arith, ground (arith, other), refl))

-- `__t_kill` of another thread that is already paused, for instance by a fault, returns TE_STATE to a
-- caller in the system layer and changes neither the thread nor the state at `slot`: the thread does
-- not become a dead one.
pub t_kill-paused :
    (k : Kernel) (image slot thread target status : ℕ)
    → image ≢ null
    → bit_and (k.mem image).flags tf_user ≡ 0
    → Names k thread target
    → target ≢ image
    → (((k.mem target).state ≡ ts_paused) ⊎ ((k.mem target).state ≡ ts_pausedw))
    → Ensures
        (t_kill image slot thread status k)
        (λ r l. (r ≡ te_state) × (l.mem target ≡ k.mem target) × (l.info ≡ k.info))
unfolding t_kill
t_kill-paused k image slot thread target status n system v other paused =
    Ensures-bind (λ r l. (r ≡ te_state) × (l.mem target ≡ k.mem target) × (l.info ≡ k.info)) _
      (t_pause image thread k) _ (t_pause-refused k image thread target n system v other paused)
      (λ r l h. let failed : (r == 0) ≡ false = rw h.0 refl in rw failed h)
