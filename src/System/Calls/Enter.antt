-- ===== src/System/Calls/Enter.antt =====
-- A kernel call through the stub of src/system/kcall.s, from a thread in the system layer.
use pinion.Base.{ℕ, ◌≡◌, refl, ◌≢◌, arith, Ensures, Ensures-bind, ==_ne, update, bit_and}
use pinion.Vm.{null}
use pinion.Kernel.{Kernel, load, edit, tf_user}
use pinion.Kcall.Dispatch.{Call, kcall, perform, decode}
use pinion.System.Calls.{call_kernel}

-- The registers in which the stub passes the call and its arguments.
abbrev pub entering : Kernel → ℕ → ℕ → ℕ → ℕ → ℕ → Kernel
entering k image call arg0 arg1 arg2 = record k {
  mem =
      update k.mem image (record (k.mem image) { eax = call; ebx = arg0; ecx = arg1; edx = arg2 });
}

kcall-perform :
    (k : Kernel) (image call arg0 arg1 arg2 : ℕ) (c : Call)
    → image ≢ null
    → bit_and (k.mem image).flags tf_user ≡ 0
    → decode call ≡ c
    → kcall image (entering k image call arg0 arg1 arg2)
      ≡ perform c image (entering k image call arg0 arg1 arg2)
unfolding kcall load
kcall-perform k image call arg0 arg1 arg2 c n system e =
    let here : (entering k image call arg0 arg1 arg2).mem image
        ≡ record (k.mem image) { eax = call; ebx = arg0; ecx = arg1; edx = arg2 } =
      ground arith in
    rw (==_ne image null n, here, system, e) refl

-- What the call's case ensures of the state and of `eax`, the wrapper returns.
pub call_kernel-perform :
    (k : Kernel) (image call arg0 arg1 arg2 : ℕ) (c : Call) (P : ℕ → Kernel → Type 0)
    → image ≢ null
    → bit_and (k.mem image).flags tf_user ≡ 0
    → decode call ≡ c
    → Ensures
        (perform c image (entering k image call arg0 arg1 arg2))
        (λ _ l. P (l.mem image).eax l)
    → Ensures (call_kernel image call arg0 arg1 arg2 k) P
unfolding call_kernel edit load
call_kernel-perform k image call arg0 arg1 arg2 c P n system e h =
    rw (==_ne image null n, kcall-perform k image call arg0 arg1 arg2 c n system e)
      (Ensures-bind (λ _ l. P (l.mem image).eax l) P
        (perform c image (entering k image call arg0 arg1 arg2)) _ h
        (λ _ l p. rw (==_ne image null n) p))
