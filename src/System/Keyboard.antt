-- ===== src/System/Keyboard.antt =====
-- The keyboard driver of src/system/init.c: the body of its loop, for each scan code that it reads
-- from the port.
mod Keymap
pub mod Shift
pub use Keymap.*
use pinion.Base.{
  ℕ, zero, suc, ◌+◌, ◌-◌, ◌*◌, ◌%◌, Bool, true, false, not, List, [], ◌∷◌, ltb, ◌==◌, if◌then◌else◌,
  Option, none, some,
}
use Keymap.{lower_case, lower_numlock, upper_case, upper_numlock, shft, caps, numl}

-- The driver's static variables; `caps_on` is `caps`.
pub record Modifiers : Type 0 where
  pub shift : Bool
  pub caps_on : Bool
  pub numlk : Bool

-- What it logs of a key that is no modifier.
pub data KeyLog : Type 0 where
  key_press key_release : ℕ → KeyLog

-- The entries that the table leaves out are 0.
unfoldable pub nth : List ℕ → ℕ → ℕ
nth [] i = 0
nth (x ∷ xs) zero = x
nth (x ∷ xs) (suc i) = nth xs i

unfoldable pub exclusive_or : Bool → Bool → Bool
exclusive_or true b = not b
exclusive_or false b = b

unfoldable pub keymap : Modifiers → ℕ → ℕ
unfolding nth exclusive_or
keymap m key =
    let upper = exclusive_or m.shift m.caps_on in
    nth
      (if upper
        then if m.numlk then upper_numlock else upper_case
        else if m.numlk
        then lower_numlock
        else lower_case)
      key

unfoldable pub release : ℕ → Modifiers → Modifiers × Option KeyLog
release code m =
    if code == shft
    then (record m { shift = false }, none)
    else if code == numl
    then (record m { numlk = false }, none)
    else (m, some (key_release code))

unfoldable pub press : ℕ → Modifiers → Modifiers × Option KeyLog
press code m =
    if code == shft
    then (record m { shift = true }, none)
    else if code == caps
    then (record m { caps_on = not m.caps_on }, none)
    else if code == numl
    then (record m { numlk = true }, none)
    else (m, some (key_press code))

-- One round of the loop. The high bit of a scan code marks a release.
unfoldable pub key_event : ℕ → Modifiers → Modifiers × Option KeyLog
unfolding keymap release press
key_event scan m =
    if scan == 0xE0
    then (m, none)
    else if ltb scan 128
    then press (keymap m scan) m
    else release (keymap m (scan - 128)) m

-- The scan codes read one after another.
unfoldable pub keyboard : List ℕ → Modifiers → Modifiers
unfolding key_event
keyboard [] m = m
keyboard (scan ∷ scans) m = keyboard scans (key_event scan m).0
