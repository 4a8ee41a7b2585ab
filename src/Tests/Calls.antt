-- ===== src/Tests/Calls.antt =====
-- Kernel calls, faults, the timer and the interrupt controller at a concrete state.
use pinion.Base.{Run, ok, update, ℕ, ◌≡◌, refl, ◌≢◌, arith, [], ◌∷◌, Ensures, ◌>>◌, crash}
use pinion.Kernel.{edit, Kernel, timer, ts_queued}
use pinion.Thread.Sched.Fifo.{IsSched}
use pinion.Thread.Event.Fifo.{Names}
use pinion.Kcall.Threads.{kcall_syscall, kcall_sysret, kcall_pause, kcall_resume, kcall_reap}
use pinion.Kcall.Errors.{Unknown, kcall_reap-Unknown}
use pinion.Kcall.Threads.Roundtrip.{
  InSystem, InUser, kcall_syscall-kcall_sysret, kcall_pause-kcall_resume,
}
use pinion.Irq.{irq_mask}
use pinion.Irq.Mask.{MaskSet, irq_mask-MaskSet}
use pinion.Interrupt.{fault_page, timer_set_freq}
use pinion.Interrupt.Timer.{CountsTo, timer_set_freq-CountsTo}
use pinion.Interrupt.Fault.{Reported, fault_page-Reported}
use pinion.Tests.Sample.{sample_kernel, sample-IsSched}

abbrev final : {A : Type 0} → Run Kernel A → Kernel
final (ok a k) = k
final (crash c) = sample_kernel

-- 500 has the ID of 200 in `ebx`.
target-Names : Names sample_kernel 2 200
target-Names = record { valid = omega arith; entry = refl; ne_null = omega arith }

-- 500 has entered the system layer, and has put 42 into `ebp` and moved on there.
abbrev entered : Kernel
entered = final (kcall_syscall 500 sample_kernel)

abbrev asking : Kernel
asking = record entered {
  mem = update entered.mem 500 (record (entered.mem 500) { ebp = 42; eip = 0x4321 });
}

entered-run : kcall_syscall 500 sample_kernel ≡ ok tt entered
unfolding kcall_syscall edit
entered-run = refl

kcall_syscall-kcall_sysret_example :
    InSystem (sample_kernel.mem 500) (entered.mem 500)
    × ((p : ℕ) → p ≢ 500 → entered.mem p ≡ sample_kernel.mem p)
    × Ensures (kcall_sysret 500 asking) (λ _ n.
      InUser (sample_kernel.mem 500) (asking.mem 500) (n.mem 500)
      × ((p : ℕ) → p ≢ 500 → n.mem p ≡ asking.mem p))
kcall_syscall-kcall_sysret_example =
    kcall_syscall-kcall_sysret sample_kernel entered asking 500 (omega arith) entered-run refl refl

kcall_pause-kcall_resume_example :
    Ensures
      ((kcall_pause 500 >> kcall_resume 500) sample_kernel)
      (λ _ l. IsSched l (100 ∷ 200 ∷ []) × ((l.mem 200).state ≡ ts_queued) × ((l.mem 500).eax ≡ 0))
kcall_pause-kcall_resume_example =
    kcall_pause-kcall_resume sample_kernel 500 200 (100 ∷ 200 ∷ []) (omega arith) target-Names refl
      (omega arith) refl sample-IsSched

fault_page-Reported_example :
    Ensures
      (fault_page 500 sample_kernel)
      (λ _ l. Reported 500 sample_kernel.cr2 (800 ∷ 900 ∷ []) (100 ∷ 200 ∷ []) l)
fault_page-Reported_example =
    fault_page-Reported sample_kernel 500 (800 ∷ 900 ∷ []) (100 ∷ 200 ∷ []) (omega arith) refl
      (omega arith) refl (λ p off n. ground (arith, off))
      (record {
        chain = (refl, omega arith, (refl, omega arith, refl));
        last = refl;
        distinct = (refl, (refl, tt));
      })
      sample-IsSched

timer_set_freq-CountsTo_example : Ensures (timer_set_freq 1024 sample_kernel) (λ r l.
    (r ≡ 0) × (l.pit_freq ≡ 1024) × (l.int_handlers 32 ≡ timer) × CountsTo 1165 sample_kernel l)
timer_set_freq-CountsTo_example =
    timer_set_freq-CountsTo sample_kernel 1024 (omega arith) (omega arith)

irq_mask-MaskSet_example : Ensures (irq_mask 9 sample_kernel) (MaskSet 9 1 sample_kernel)
irq_mask-MaskSet_example = irq_mask-MaskSet sample_kernel 9 (omega arith)

-- 500 asks for ID 6, that of the dead thread 600.
abbrev reaper_kernel : Kernel
reaper_kernel = record sample_kernel {
  mem = update sample_kernel.mem 500 (record (sample_kernel.mem 500) { ebx = 6 });
}

kcall_reap-Unknown_example :
    Ensures (kcall_reap 500 reaper_kernel) (λ _ l. ((l.mem 500).eax ≡ 0) × Unknown l 500)
kcall_reap-Unknown_example =
    kcall_reap-Unknown reaper_kernel 500 600 (omega arith) (omega arith)
      (record { valid = omega arith; entry = refl; ne_null = omega arith }) refl refl refl
