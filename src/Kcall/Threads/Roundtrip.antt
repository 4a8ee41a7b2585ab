-- ===== src/Kcall/Threads/Roundtrip.antt =====
-- Calls of src/kernel/kcall.c that undo each other: the way into the system layer and back, and
-- KCALL_PAUSE with KCALL_RESUME.
use pinion.Base.{
  Ensures-ok, bit_and, bit_or, ◌-◌, ◌/◌, ==_refl, and_then_assoc, ℕ, ◌≡◌, ◌≤◌, refl, ap, ◌∙◌, ◌≢◌,
  false, arith, List, [], ◌∷◌, ◌++◌, ◌∈◌, ◌∉◌, erase, length, not-mem-erase, ok, Ensures,
  Ensures-bind, Ensures-mono, ◌>>◌, ◌==◌, ==_ne,
}
use pinion.Base.Bits.{bit_and_step, bit_or_step, bit_and_mask, bit_and-zero}
use pinion.Vm.{null}
use pinion.Kernel.{
  Thread, Kernel, load, edit, thread_count, ts_queued, ts_paused, minus_one, tf_user, tf_dead,
}
use pinion.Thread.Links.{IsQueue-same}
use pinion.Thread.Sched.{schedule_push, schedule_remv}
use pinion.Thread.Sched.Fifo.{IsSched, SameButSched, next_of, schedule_push-enqueue}
use pinion.Thread.Sched.Remove.{schedule_remv-erase}
use pinion.Thread.Event.Fifo.{Names, thread_get-entry}
use pinion.Kcall.Threads.{
  set_eax, set_state, kcall_syscall, kcall_sysret, target_or_self, pause_target, kcall_pause,
  resume_target, kcall_resume,
}

-- `t` runs in the system layer: where its last KCALL_SYSRET left off, in the segments of the system
-- layer and with its privileges.
pub record InSystem (before t : Thread) : Type 0 where
  pub eip : t.eip ≡ before.sys_eip
  pub useresp : t.useresp ≡ before.sys_esp
  pub cs : t.cs ≡ 0x19
  pub ss : t.ss ≡ 0x21
  pub ds : t.ds ≡ 0x21
  pub mode : bit_and t.flags tf_user ≡ 0
  pub others : bit_and t.flags tf_dead ≡ bit_and before.flags tf_dead

-- `t` is back in usermode at the instruction and the stack of `before`, with the result that the system
-- layer put into `ebp` of `during`, and enters the system layer next where that left off.
pub record InUser (before during t : Thread) : Type 0 where
  pub eip : t.eip ≡ before.eip
  pub useresp : t.useresp ≡ before.useresp
  pub eax : t.eax ≡ during.ebp
  pub sys_eip : t.sys_eip ≡ during.eip
  pub sys_esp : t.sys_esp ≡ during.useresp
  pub cs : t.cs ≡ 0x2B
  pub ss : t.ss ≡ 0x33
  pub ds : t.ds ≡ 0x33
  pub mode : bit_and t.flags tf_user ≡ tf_user

without_user :
    (f : ℕ)
    → (bit_and (bit_and f (0xFF - tf_user)) tf_user ≡ 0)
      × (bit_and (bit_and f (0xFF - tf_user)) tf_dead ≡ bit_and f tf_dead)
without_user f =
    let a = bit_and f 0xFD in
    let low = bit_and_step f 0xFD in
    let next = bit_and_step (f / 2) 0x7E in
    let high = bit_and_mask 1 in
    (
      omega (arith, low, next, bit_and_step a 2, bit_and_step (a / 2) 1, bit_and-zero (a / 2 / 2)),
      omega (arith, low, high a, high f),
    )

with_user : (f : ℕ) → bit_and (bit_or f tf_user) tf_user ≡ tf_user
with_user f =
    let a = bit_or f 2 in
    omega (
      arith,
      bit_or_step f 2,
      bit_or_step (f / 2) 1,
      bit_and_step a 2,
      bit_and_step (a / 2) 1,
      bit_and-zero (a / 2 / 2),
    )

kcall_syscall-InSystem :
    (k : Kernel) (image : ℕ)
    → image ≢ null
    → Ensures (kcall_syscall image k) (λ _ l.
      InSystem (k.mem image) (l.mem image)
      × ((p : ℕ) → p ≢ image → l.mem p ≡ k.mem p)
      × ((l.mem image).usr_eip ≡ (k.mem image).eip)
      × ((l.mem image).usr_esp ≡ (k.mem image).useresp))
unfolding kcall_syscall edit
kcall_syscall-InSystem k image n = rw (==_ne image null n) (
  record {
    eip = ground arith;
    useresp = ground arith;
    cs = ground arith;
    ss = ground arith;
    ds = ground arith;
    mode = rw (==_refl image) (without_user (k.mem image).flags).0;
    others = rw (==_refl image) (without_user (k.mem image).flags).1;
  },
  λ p ne. ground arith,
  ground arith,
  ground arith,
)

-- Back where `usr_eip` and `usr_esp` say.
kcall_sysret-InUser :
    (m : Kernel) (image : ℕ)
    → image ≢ null
    → Ensures (kcall_sysret image m) (λ _ n.
      InUser
        (record (m.mem image) { eip = (m.mem image).usr_eip; useresp = (m.mem image).usr_esp })
        (m.mem image)
        (n.mem image)
      × ((p : ℕ) → p ≢ image → n.mem p ≡ m.mem p))
unfolding kcall_sysret edit
kcall_sysret-InUser m image n = rw (==_ne image null n) (
  record {
    eip = ground arith;
    useresp = ground arith;
    eax = ground arith;
    sys_eip = ground arith;
    sys_esp = ground arith;
    cs = ground arith;
    ss = ground arith;
    ds = ground arith;
    mode = rw (==_refl image) (with_user (m.mem image).flags);
  },
  λ p ne. ground arith,
)

-- A kernel call of a usermode thread enters the system layer where it was left, in its segments and
-- without TF_USER. Whatever happens there, and in the rest of the kernel, up to KCALL_SYSRET, as long
-- as the saved instruction and stack of that thread stay: KCALL_SYSRET then goes back to the
-- interrupted instruction and stack, in the usermode segments and with TF_USER set, with the result that
-- the system layer put into `ebp`, and the place where the system layer asked for it is the next entry.
-- Neither changes another thread.
pub kcall_syscall-kcall_sysret :
    (k l m : Kernel) (image : ℕ)
    → image ≢ null
    → kcall_syscall image k ≡ ok tt l
    → (m.mem image).usr_eip ≡ (l.mem image).usr_eip
    → (m.mem image).usr_esp ≡ (l.mem image).usr_esp
    → InSystem (k.mem image) (l.mem image)
      × ((p : ℕ) → p ≢ image → l.mem p ≡ k.mem p)
      × Ensures (kcall_sysret image m) (λ _ n.
        InUser (k.mem image) (m.mem image) (n.mem image)
        × ((p : ℕ) → p ≢ image → n.mem p ≡ m.mem p))
kcall_syscall-kcall_sysret k l m image n run eip esp =
    let enter = Ensures-ok _ (kcall_syscall image k) tt l run (kcall_syscall-InSystem k image n) in
    (
      enter.0,
      enter.1,
      Ensures-mono _ _ (kcall_sysret image m) (kcall_sysret-InUser m image n) (λ _ o h. (
        record {
          eip = h.0.eip ∙ eip ∙ enter.2;
          useresp = h.0.useresp ∙ esp ∙ enter.3;
          eax = h.0.eax;
          sys_eip = h.0.sys_eip;
          sys_esp = h.0.sys_esp;
          cs = h.0.cs;
          ss = h.0.ss;
          ds = h.0.ds;
          mode = h.0.mode;
        },
        h.1,
      )),
    )

pub target_or_self-target :
    (k : Kernel) (image target : ℕ)
    → image ≢ null
    → Names k (k.mem image).ebx target
    → target_or_self image k ≡ ok target k
unfolding target_or_self load
target_or_self-target k image target n v =
    let other : ((k.mem image).ebx == minus_one) ≡ false = ground (arith, v.valid) in
    rw (==_ne image null n, thread_get-entry k (k.mem image).ebx target v, other)

pub kcall_pause-target :
    (k : Kernel) (image target : ℕ)
    → image ≢ null
    → Names k (k.mem image).ebx target
    → kcall_pause image k ≡ pause_target image target k
unfolding kcall_pause
kcall_pause-target k image target n v =
    rw (target_or_self-target k image target n v, ==_ne target null v.ne_null)

pub pause_target-removes :
    (k : Kernel) (image target : ℕ)
    → target ≢ null
    → (k.mem target).state ≡ ts_queued
    → pause_target image target k
      ≡ (schedule_remv target >> (set_state target ts_paused >> set_eax image 0)) k
unfolding pause_target load
pause_target-removes k image target n queued =
    rw (==_ne target null n, queued) (and_then_assoc (schedule_remv target k) _ _)

-- The state of `target` and the result in `image`, after the queue has changed.
pub settled :
    (l : Kernel) (image target s : ℕ) (xs : List ℕ)
    → image ≢ null
    → target ≢ null
    → IsSched l xs
    → Ensures ((set_state target s >> set_eax image 0) l) (λ _ m.
      IsSched m xs
      × ((m.mem target).state ≡ s)
      × ((m.mem image).eax ≡ 0)
      × (m.thread_table ≡ l.thread_table)
      × ((m.mem image).ebx ≡ (l.mem image).ebx)
      × (m.active_thread ≡ l.active_thread)
      × ((p : ℕ) → p ≢ target → (m.mem p).state ≡ (l.mem p).state))
unfolding set_state set_eax edit
settled l image target s xs n m q = rw (==_ne target null m) (
    rw (==_ne image null n) (
      IsQueue-same (next_of l) _ l.sched_head l.sched_tail xs (λ a i. ground arith) q,
      ground arith,
      ground arith,
      refl,
      ground arith,
      refl,
      λ p ne. ground arith,
    ))

-- `l` is `k` with `target` paused and taken out of the queue `xs`, and the caller told 0.
pub record Paused (k : Kernel) (image target : ℕ) (xs : List ℕ) (l : Kernel) : Type 0 where
  pub sched : IsSched l (erase target xs)
  pub state : (l.mem target).state ≡ ts_paused
  pub eax : (l.mem image).eax ≡ 0
  pub table : l.thread_table ≡ k.thread_table
  pub ebx : (l.mem image).ebx ≡ (k.mem image).ebx
  pub active : l.active_thread ≡ k.active_thread
  pub kept : (p : ℕ) → p ≢ target → (l.mem p).state ≡ (k.mem p).state

-- KCALL_PAUSE of another thread that is in the scheduler's queue, wherever it stands: it is paused,
-- just that thread leaves the queue, and the caller gets 0. (The queue holds at most THREAD_COUNT
-- threads.)
pub kcall_pause-Paused :
    (k : Kernel) (image target : ℕ) (xs : List ℕ)
    → image ≢ null
    → Names k (k.mem image).ebx target
    → (k.mem target).state ≡ ts_queued
    → length xs ≤ thread_count
    → target ∈ xs
    → IsSched k xs
    → Ensures (kcall_pause image k) (λ _. Paused k image target xs)
kcall_pause-Paused k image target xs n v queued few i q =
    rw (kcall_pause-target k image target n v, pause_target-removes k image target v.ne_null queued)
      (Ensures-bind (λ r l. (r ≡ 0) × IsSched l (erase target xs) × SameButSched k l)
        (λ _. Paused k image target xs) (schedule_remv target k) _
        (schedule_remv-erase target k xs few i q)
        (λ r l h.
          Ensures-mono _ (λ _. Paused k image target xs)
            ((set_state target ts_paused >> set_eax image 0) l)
            (settled l image target ts_paused (erase target xs) n v.ne_null h.1)
            (λ r m g. record {
              sched = g.0;
              state = g.1;
              eax = g.2;
              table = g.3 ∙ ap (λ (x : Kernel). x.thread_table) h.2.0;
              ebx = g.4 ∙ ap (λ (x : Thread). x.ebx) (h.2.1 image);
              active = g.5 ∙ ap (λ (x : Kernel). x.active_thread) h.2.0;
              kept = λ p ne. g.6 p ne ∙ ap (λ (x : Thread). x.state) (h.2.1 p);
            })))

pub resume_target-pushes :
    (k : Kernel) (image target : ℕ)
    → image ≢ null
    → Names k (k.mem image).ebx target
    → (k.mem target).state ≡ ts_paused
    → kcall_resume image k
      ≡ (schedule_push target >> (set_state target ts_queued >> set_eax image 0)) k
unfolding kcall_resume resume_target load
resume_target-pushes k image target n v paused =
    rw
      (
        ==_ne image null n,
        thread_get-entry k (k.mem image).ebx target v,
        ==_ne target null v.ne_null,
        ==_ne target null v.ne_null,
        paused,
      )
      (and_then_assoc (schedule_push target k) _ _)

-- `l` is `k` with `target` queued behind `xs`, and the caller told 0.
pub record Resumed (k : Kernel) (image target : ℕ) (xs : List ℕ) (l : Kernel) : Type 0 where
  pub sched : IsSched l (xs ++ target ∷ [])
  pub state : (l.mem target).state ≡ ts_queued
  pub eax : (l.mem image).eax ≡ 0
  pub table : l.thread_table ≡ k.thread_table
  pub active : l.active_thread ≡ k.active_thread
  pub kept : (p : ℕ) → p ≢ target → (l.mem p).state ≡ (k.mem p).state

pub kcall_resume-Resumed :
    (k : Kernel) (image target : ℕ) (xs : List ℕ)
    → image ≢ null
    → Names k (k.mem image).ebx target
    → (k.mem target).state ≡ ts_paused
    → target ∉ xs
    → IsSched k xs
    → Ensures (kcall_resume image k) (λ _. Resumed k image target xs)
kcall_resume-Resumed k image target xs n v paused out q =
    rw (resume_target-pushes k image target n v paused) (
      Ensures-bind (λ r m. (r ≡ 0) × IsSched m (xs ++ target ∷ []) × SameButSched k m)
        (λ _. Resumed k image target xs) (schedule_push target k)
        (λ _. set_state target ts_queued >> set_eax image 0)
        (schedule_push-enqueue target k xs v.ne_null out q)
        (λ r m h.
          Ensures-mono _ (λ _. Resumed k image target xs)
            ((set_state target ts_queued >> set_eax image 0) m)
            (settled m image target ts_queued _ n v.ne_null h.1)
            (λ r l g. record {
              sched = g.0;
              state = g.1;
              eax = g.2;
              table = g.3 ∙ ap (λ (x : Kernel). x.thread_table) h.2.0;
              active = g.5 ∙ ap (λ (x : Kernel). x.active_thread) h.2.0;
              kept = λ p ne. g.6 p ne ∙ ap (λ (x : Thread). x.state) (h.2.1 p);
            })))

-- KCALL_PAUSE of another queued thread, and KCALL_RESUME of the same one by the same caller: the
-- thread is queued again, at the end; the others keep their order.
pub kcall_pause-kcall_resume :
    (k : Kernel) (image target : ℕ) (xs : List ℕ)
    → image ≢ null
    → Names k (k.mem image).ebx target
    → (k.mem target).state ≡ ts_queued
    → length xs ≤ thread_count
    → target ∈ xs
    → IsSched k xs
    → Ensures ((kcall_pause image >> kcall_resume image) k) (λ _ l.
      IsSched l (erase target xs ++ target ∷ [])
      × ((l.mem target).state ≡ ts_queued)
      × ((l.mem image).eax ≡ 0))
kcall_pause-kcall_resume k image target xs n v queued few i q =
    Ensures-bind (λ _. Paused k image target xs) _ (kcall_pause image k) _
      (kcall_pause-Paused k image target xs n v queued few i q)
      (λ _ l p.
        let names : Names l (l.mem image).ebx target = record {
          valid = rw p.ebx v.valid;
          entry = rw (p.ebx, p.table) v.entry;
          ne_null = v.ne_null;
        } in
        Ensures-mono (λ _. Resumed l image target (erase target xs)) _ (kcall_resume image l)
          (kcall_resume-Resumed l image target (erase target xs) n names p.state
            (not-mem-erase target xs q.distinct) p.sched)
          (λ _ m h. (h.sched, h.state, h.eax)))
