-- ===== src/Tests/Console.antt =====
-- The serial port, and the screen and the keyboard of the system layer, at concrete inputs.
use pinion.Base.{Ensures, ℕ, ◌≡◌, refl, arith, List, [], ◌∷◌, true, false}
use pinion.Base.{◌==◌, if◌then◌else◌}
use pinion.Bytes.{Bytes}
use pinion.Debug.{Serial, debug_string}
use pinion.Debug.Text.{debug_string-sent}
use pinion.System.Monitor.{Screen, print_chars, printd}
use pinion.System.Monitor.Cursor.{InScreen, print_chars-InScreen}
use pinion.System.Monitor.Decimal.{Shows, absolute, with_sign, printd-Shows}
use pinion.System.Log.{Logger}
use pinion.System.Log.Format.{Piece, plain, decimal}
use pinion.System.Log.Line.{Line}
use pinion.System.Keyboard.{Modifiers, keyboard}
use pinion.System.Keyboard.Shift.{modified_all, keyboard-modified_all}

-- The cursor is on the last place.
abbrev screen : Screen
screen = record { cells = λ p. p; cursor = 1999; color = 0x0700; ports = [] }

print_chars-InScreen_example : InScreen screen (print_chars (b'a' ∷ 10 ∷ 9 ∷ b'b' ∷ []) screen)
print_chars-InScreen_example = print_chars-InScreen (b'a' ∷ 10 ∷ 9 ∷ b'b' ∷ []) screen (omega arith)

abbrev forty_two : ℕ
forty_two = 0x2A

abbrev no_modifiers : Modifiers
no_modifiers = record { shift = false; caps_on = false; numlk = false }

-- Left shift goes down, caps lock is pressed, an 'a' is typed, left shift goes up.
abbrev scans : List ℕ
scans = 42 ∷ 58 ∷ 30 ∷ 158 ∷ 186 ∷ 170 ∷ []

keyboard-modified_all_example : keyboard scans no_modifiers ≡ modified_all scans no_modifiers
keyboard-modified_all_example = keyboard-modified_all scans no_modifiers

scans-run : modified_all scans no_modifiers ≡ record no_modifiers { caps_on = true }
scans-run = refl

printd-Shows_example :
    Ensures
      (printd 0xFFFF_FFF6 screen)
      (λ _ t. Shows (absolute 0xFFFF_FFF6) (with_sign 0xFFFF_FFF6 screen) t)
printd-Shows_example = printd-Shows 0xFFFF_FFF6 screen (omega arith) (omega arith)

-- "ok" and a line feed, on a port that is always ready.
abbrev text : Bytes
text p = if p == 0 then b'o' else if p == 1 then b'k' else if p == 2 then 10 else 0

abbrev port : Serial
port = record { status = λ _. 0x20; reads = 0; patience = 1; ports = [] }

debug_string-sent_example :
    Ensures
      (debug_string text 0 port)
      (λ _ t. t.ports ≡ (0x3F8, 13) ∷ (0x3F8, 10) ∷ (0x3F8, b'k') ∷ (0x3F8, b'o') ∷ [])
debug_string-sent_example =
    debug_string-sent 0 text (b'o' ∷ b'k' ∷ 10 ∷ []) port (omega arith)
      (refl, omega arith, (refl, omega arith, (refl, omega arith, refl)))
      (omega arith, λ i. omega arith)

-- "id %d\0" at address 100.
abbrev format_bytes : Bytes
format_bytes p =
    if p == 100
    then b'i'
    else if p == 101
    then b'd'
    else if p == 102
    then b' '
    else if p == 103
    then b'%'
    else if p == 104
    then b'd'
    else 0

abbrev logger : Logger
logger = record { is_setup = true; screen = screen }

abbrev pieces : List Piece
pieces = plain b'i' ∷ plain b'd' ∷ plain b' ' ∷ decimal ∷ []
