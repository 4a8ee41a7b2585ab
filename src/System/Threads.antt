-- ===== src/System/Threads.antt =====
-- The threads of the system layer in src/system/init.c: the body of the reaper's loop and the start of
-- a thread; the child has the debugger, the messages and `init`. `image` is the calling thread,
-- `slot` the address of its local structure. Where a call pauses the caller, the rest of the body
-- runs once another thread's call has put the result into `eax`; modelled is the body whose calls
-- return at once. The addresses of the functions and of the array `stack` are parameters.
pub mod Messages
pub mod Reaper
use pinion.Base.{ℕ, ◌+◌, ◌*◌, pure, modify, ◌>>=◌, ◌>>◌, update}
use pinion.Kernel.{KCmd}
use pinion.System.Calls.{t_getdead, t_reap, t_spawn}

unfoldable pub reaper_round : ℕ → KCmd ℕ
reaper_round image = do thread ← t_getdead image; t_reap image thread 0

-- `state.regs.eip = …; state.regs.esp = …; __t_spawn(&state)`
unfoldable pub spawn_at : ℕ → ℕ → ℕ → ℕ → KCmd ℕ
unfolding t_spawn
spawn_at image slot eip esp = do
  modify (λ k.
      let old = k.info slot in
      record k {
        info = update k.info slot (record old { regs = record old.regs { eip = eip; esp = esp } });
      })
  t_spawn image slot
