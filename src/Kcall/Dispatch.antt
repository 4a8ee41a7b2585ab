-- ===== src/Kcall/Dispatch.antt =====
-- `kcall`: the numbers of the calls (src/include/pinion.h) and the switch on them.
use pinion.Base.{ℕ, bit_and, ◌>>=◌, ◌==◌, if◌then◌else◌}
use pinion.Kernel.{KCmd, load, tf_user, minus_one}
use pinion.Kcall.Threads.{
  set_eax, kcall_syscall, kcall_sysret, kcall_spawn, kcall_reap, kcall_gettid, kcall_yield,
  kcall_pause, kcall_resume, kcall_getstate, kcall_getdead, kcall_getfault, kcall_wait, kcall_reset,
}
use pinion.Kcall.Setstate.{kcall_setstate}
use pinion.Kcall.Memory.{
  kcall_newpctx, kcall_freepctx, kcall_setframe, kcall_setflags, kcall_getframe, kcall_getflags,
  kcall_newframe, kcall_freeframe, kcall_takeframe,
}

pub data Call : Type 0 where
  spawn gettid yield pause resume getstate setstate getfault getdead reap wait reset sysret : Call
  newpctx freepctx setframe setflags getframe getflags newframe freeframe takeframe : Call
  unknown : Call

unfoldable pub thread_call : ℕ → Call
thread_call n =
    if n == 0x02
    then spawn
    else if n == 0x03
    then gettid
    else if n == 0x04
    then yield
    else if n == 0x05
    then pause
    else if n == 0x06
    then resume
    else if n == 0x07
    then getstate
    else if n == 0x08
    then setstate
    else if n == 0x09
    then getfault
    else if n == 0x0A
    then getdead
    else if n == 0x0B
    then reap
    else if n == 0x0D
    then wait
    else if n == 0x0E
    then reset
    else if n == 0x0F
    then sysret
    else unknown

unfoldable pub memory_call : ℕ → Call
memory_call n =
    if n == 0x10
    then newpctx
    else if n == 0x11
    then freepctx
    else if n == 0x12
    then setframe
    else if n == 0x13
    then setflags
    else if n == 0x14
    then getframe
    else if n == 0x15
    then getflags
    else if n == 0x1C
    then newframe
    else if n == 0x1D
    then freeframe
    else if n == 0x1E
    then takeframe
    else unknown

unfoldable pub decode : ℕ → Call
unfolding thread_call memory_call
decode n = elim (thread_call n) [ unknown ↦ memory_call n | c ↦ c ]

unfoldable pub perform : Call → ℕ → KCmd (Unit {0})
perform spawn image = kcall_spawn image
perform gettid image = kcall_gettid image
perform yield image = kcall_yield image
perform pause image = kcall_pause image
perform resume image = kcall_resume image
perform getstate image = kcall_getstate image
perform setstate image = kcall_setstate image
perform getfault image = kcall_getfault image
perform getdead image = kcall_getdead image
perform reap image = kcall_reap image
perform wait image = kcall_wait image
perform reset image = kcall_reset image
perform sysret image = kcall_sysret image
perform newpctx image = kcall_newpctx image
perform freepctx image = kcall_freepctx image
perform setframe image = kcall_setframe image
perform setflags image = kcall_setflags image
perform getframe image = kcall_getframe image
perform getflags image = kcall_getflags image
perform newframe image = kcall_newframe image
perform freeframe image = kcall_freeframe image
perform takeframe image = kcall_takeframe image
perform unknown image = set_eax image minus_one

unfoldable pub kcall : ℕ → KCmd (Unit {0})
unfolding decode perform
kcall image = do
  i ← load image
  if bit_and i.flags tf_user == 0 then perform (decode i.eax) image else kcall_syscall image
