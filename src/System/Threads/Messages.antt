-- ===== src/System/Threads/Messages.antt =====
-- The threads of src/system/init.c with what they log. A round of a loop is one whose calls return at
-- once; `func1` never ends, and the others are given a number of rounds.
use pinion.Base.{
  ℕ, zero, suc, ◌+◌, ◌*◌, ◌%◌, Cmd, List, [], ◌∷◌, pure, fail, get, modify, focus, ◌>>=◌, ◌>>◌,
  hang, update,
}
use pinion.Vm.{u32}
use pinion.Kernel.{Kernel, KCmd, TInfo}
use pinion.Bytes.{Bytes, word}
use pinion.System.Log.{Logger, init_log, log_at}
use pinion.System.Calls.{t_getid, t_getfault, t_getstate, t_kill}
use pinion.System.Threads.{reaper_round, spawn_at}

-- The kernel, the log and the memory of the system layer.
pub record Layer : Type 0 where
  pub kernel : Kernel
  pub logger : Logger
  pub bytes : Bytes

abbrev pub LayerCmd : Type 0 → Type 0
LayerCmd A = Cmd Layer A

abbrev pub on_kernel : {A : Type 0} → KCmd A → LayerCmd A
on_kernel = focus (λ l. l.kernel) (λ l k. record l { kernel = k })

-- The addresses of the strings: the names of the functions, and the formats in their order.
pub record Texts : Type 0 where
  pub func0_name : ℕ
  pub func1_name : ℕ
  pub debugger_name : ℕ
  pub reaper_name : ℕ
  pub init_name : ℕ
  pub func0_on : ℕ
  pub func1_on : ℕ
  pub debugger_on : ℕ
  pub reaper_on : ℕ
  pub starting : ℕ
  pub nameless : ℕ
  pub page_fault : ℕ
  pub eip_is : ℕ
  pub esp_ebp : ℕ
  pub eax_ebx : ℕ
  pub ecx_edx : ℕ
  pub edi_esi : ℕ
  pub empty : ℕ
  pub stack_trace : ℕ
  pub stack_word : ℕ

-- `log(level, fmt, …)` in function `func` at a line.
unfoldable pub say : ℕ → ℕ → ℕ → ℕ → List ℕ → LayerCmd (Unit {0})
unfolding log_at
say level func line fmt args = do
  l ← get
  focus (λ m. m.logger) (λ m o. record m { logger = o }) (log_at l.bytes level func line fmt args)

unfoldable pub func0 : Texts → ℕ → LayerCmd (Unit {0})
unfolding say t_getid
func0 x image = do id ← on_kernel (t_getid image); say 3 x.func0_name 31 x.func0_on (id ∷ [])

unfoldable pub func1 : Texts → ℕ → LayerCmd (Unit {0})
unfolding say t_getid
func1 x image = do
  id ← on_kernel (t_getid image)
  say 3 x.func1_name 35 x.func1_on (id ∷ [])
  fail hang

-- The loop over the words of the stack, from the word in front of the `left`-th on.
unfoldable pub trace_loop : Texts → ℕ → ℕ → LayerCmd (Unit {0})
unfolding say
trace_loop x esp zero = pure tt
trace_loop x esp (suc i) = do
  l ← get
  let val = word l.bytes ((esp + i * 4) % u32)
  say 0 x.debugger_name 63 x.stack_word (i * 4 ∷ val ∷ val ∷ [])
  trace_loop x esp i

-- What the debugger logs of a thread.
unfoldable pub report : Texts → ℕ → TInfo → LayerCmd (Unit {0})
unfolding say trace_loop
report x thread i = do
  say 0 x.debugger_name 52 x.page_fault (thread ∷ x.nameless ∷ i.fault_addr ∷ [])
  say 0 x.debugger_name 53 x.eip_is (i.regs.eip ∷ [])
  say 0 x.debugger_name 54 x.esp_ebp (i.regs.esp ∷ i.regs.ebp ∷ [])
  say 0 x.debugger_name 55 x.eax_ebx (i.regs.eax ∷ i.regs.ebx ∷ [])
  say 0 x.debugger_name 56 x.ecx_edx (i.regs.ecx ∷ i.regs.edx ∷ [])
  say 0 x.debugger_name 57 x.edi_esi (i.regs.edi ∷ i.regs.esi ∷ [])
  say 0 x.debugger_name 58 x.empty []
  say 0 x.debugger_name 60 x.stack_trace []
  trace_loop x i.regs.esp 7

-- The results of `__t_getstate` and of `__t_kill` are not looked at.
unfoldable pub debugger_round : Texts → ℕ → ℕ → LayerCmd ℕ
unfolding t_getfault t_getstate t_kill report
debugger_round x image slot = do
  thread ← on_kernel (t_getfault image)
  on_kernel (t_getstate image thread slot)
  l ← get
  report x thread (l.kernel.info slot)
  on_kernel (t_kill image slot thread 1)

unfoldable pub debugger_loop : ℕ → Texts → ℕ → ℕ → LayerCmd (Unit {0})
unfolding debugger_round
debugger_loop zero x image slot = pure tt
debugger_loop (suc rounds) x image slot =
    debugger_round x image slot >> debugger_loop rounds x image slot

unfoldable pub debugger : ℕ → Texts → ℕ → ℕ → LayerCmd (Unit {0})
unfolding debugger_loop say t_getid
debugger rounds x image slot = do
  id ← on_kernel (t_getid image)
  say 1 x.debugger_name 43 x.debugger_on (id ∷ [])
  debugger_loop rounds x image slot

unfoldable pub reaper_loop : ℕ → ℕ → LayerCmd (Unit {0})
unfolding reaper_round
reaper_loop zero image = pure tt
reaper_loop (suc rounds) image = on_kernel (reaper_round image) >> reaper_loop rounds image

unfoldable pub reaper : ℕ → Texts → ℕ → LayerCmd (Unit {0})
unfolding reaper_loop say t_getid
reaper rounds x image = do
  id ← on_kernel (t_getid image)
  say 1 x.reaper_name 71 x.reaper_on (id ∷ [])
  reaper_loop rounds image

-- `*((volatile int*) 42) = 24`, where there is memory.
unfoldable pub poke : Bytes → Bytes
poke b = update (update (update (update b 42 24) 43 0) 44 0) 45 0

-- The IDs of the debugger, the reaper and the keyboard driver.
unfoldable pub start : Texts → ℕ → ℕ → ℕ → ℕ → ℕ → ℕ → LayerCmd (ℕ × ℕ × ℕ)
unfolding say spawn_at init_log poke
start x image slot stack debugger_at reaper_at keyboard_at = do
  focus (λ m. m.logger) (λ m o. record m { logger = o }) init_log
  say 1 x.init_name 200 x.starting []
  t_debugger ← on_kernel (spawn_at image slot debugger_at (stack + 4 * 255))
  t_reaper ← on_kernel (spawn_at image slot reaper_at (stack + 4 * 511))
  driver ← on_kernel (spawn_at image slot keyboard_at (stack + 4 * 65535))
  modify (λ l. record l { bytes = poke l.bytes })
  pure (t_debugger, t_reaper, driver)
