-- ===== src/System/Log.antt =====
-- src/system/log.c. A format is a string in memory, and the arguments are 32-bit words.
pub mod Format
pub mod Line
use pinion.Base.{
  ℕ, zero, suc, ◌+◌, ◌%◌, ◌^◌, Bool, true, ◌||◌, ◌&&◌, not, List, [], ◌∷◌, Cmd, pure, fail, get,
  modify, focus, when, ◌>>=◌, ◌>>◌, ltb, ◌==◌, if◌then◌else◌, hang, out_of_bounds,
}
use pinion.Bytes.{Bytes}
use pinion.System.Monitor.{
  Screen, ScreenCmd, clear, setcolor, printc, prints, printx, printp, printd, text_fuel,
  print_chars,
}

-- `_setup`, and the screen.
pub record Logger : Type 0 where
  pub is_setup : Bool
  pub screen : Screen

abbrev pub LogCmd : Type 0 → Type 0
LogCmd A = Cmd Logger A

abbrev on_screen : {A : Type 0} → ScreenCmd A → LogCmd A
on_screen = focus (λ l. l.screen) (λ l s. record l { screen = s })

unfoldable pub init_log : LogCmd (Unit {0})
init_log = modify (λ l. record l { screen = clear l.screen; is_setup = true })

-- The conversions that take an argument.
unfoldable pub print_argument : Bytes → ℕ → ℕ → ScreenCmd (Unit {0})
print_argument b c arg =
    if c == b'd'
    then printd arg
    else if c == b'x'
    then modify (printx arg)
    else if c == b'p'
    then modify (printp arg)
    else if c == b's'
    then prints b arg
    else modify (printc (arg % 256))

unfoldable pub wants_argument : ℕ → Bool
wants_argument c = (c == b'd') || (c == b'x') || (c == b'p') || (c == b's') || (c == b'c')

-- Where no argument is left the source reads past them.
unfoldable pub next_argument : Bytes → ℕ → List ℕ → ScreenCmd (List ℕ)
unfolding print_argument
next_argument b c [] = fail out_of_bounds
next_argument b c (arg ∷ args) = print_argument b c arg >> pure args

unfoldable pub print_conversion : Bytes → ℕ → List ℕ → ScreenCmd (List ℕ)
unfolding next_argument wants_argument
print_conversion b c args =
    if c == b'%'
    then modify (printc b'%') >> pure args
    else if wants_argument c
    then next_argument b c args
    else pure args

-- The loop over the format at `p`, the same in `lograw` and in `__log`, on fuel. Where a '%' ends the
-- string, the loop goes on behind it.
unfoldable pub log_loop : ℕ → Bytes → ℕ → List ℕ → ScreenCmd (Unit {0})
unfolding print_conversion
log_loop zero b p args = fail hang
log_loop (suc fuel) b p args =
    let after = log_loop fuel b (p + 2) in
    let next = log_loop fuel b (p + 1) args in
    if b p == 0
    then pure tt
    else if b p == b'%'
    then print_conversion b (b (p + 1)) args >>= after
    else modify (printc (b p)) >> next

abbrev pub brown : ℕ
brown = 6

abbrev pub l_grey : ℕ
l_grey = 7

abbrev pub l_brown : ℕ
l_brown = 14

unfoldable pub lograw : Bytes → ℕ → List ℕ → LogCmd (Unit {0})
lograw b fmt args = do
  l ← get
  when l.is_setup
      (on_screen do modify (setcolor l_brown); log_loop text_fuel b fmt args; modify (printc 10))

-- The colour of a level: ERROR 0, INIT 1, DEBUG 2, VERBOSE 3.
unfoldable pub level_color : ℕ → ℕ
level_color level =
    if level == 0
    then 12
    else if level == 1
    then l_brown
    else if level == 2
    then 9
    else if level == 3
    then l_grey
    else brown

-- The place that a message comes from: "func line:\t".
unfoldable pub print_place : Bytes → ℕ → ℕ → ScreenCmd (Unit {0})
print_place b func line = do
  modify (setcolor l_grey)
  prints b func
  modify (printc b' ')
  printd line
  modify (print_chars (b':' ∷ 9 ∷ []))

-- `__log`. A level is an `int`: the patterns from 2^31 on are negative, and not above VERBOSE.
unfoldable pub log_at : Bytes → ℕ → ℕ → ℕ → ℕ → List ℕ → LogCmd (Unit {0})
unfolding level_color print_place
log_at b level func line fmt args = do
  l ← get
  when (l.is_setup && not (ltb 3 level && ltb level (2 ^ 31))) (
      on_screen do
        when (not (level == 1)) (print_place b func line)
        modify (setcolor (level_color level))
        log_loop text_fuel b fmt args
        modify (printc 10)
        modify (setcolor l_grey))
