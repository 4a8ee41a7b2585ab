-- ===== src/System/Keyboard/Shift.antt =====
-- What a sequence of scan codes makes of the modifiers of the keyboard driver in src/system/init.c.
use pinion.Base.{
  ℕ, zero, suc, ◌+◌, ◌-◌, ◌≡◌, refl, ap, ◌∙◌, arith, Bool, true, false, not, ◌&&◌, ◌||◌, List, [],
  ◌∷◌, ltb, leb, ◌==◌, if◌then◌else◌, subst,
}
use pinion.System.Keyboard.{
  Modifiers, nth, keymap, exclusive_or, release, press, key_event, keyboard, lower_case,
  lower_numlock, upper_case, upper_numlock, shft, caps, numl,
}

-- The modifiers among the keys.
pub data Role : Type 0 where
  shift_key caps_key numl_key no_role : Role

-- The role of a key by its position on the keyboard: the two shift keys, caps lock and num lock.
abbrev pub role_at : ℕ → Role
role_at key =
    if (key == 42) || (key == 54)
    then shift_key
    else if key == 58
    then caps_key
    else if key == 69
    then numl_key
    else no_role

-- The role of an entry of the table.
abbrev role_of : ℕ → Role
role_of code =
    if code == shft
    then shift_key
    else if code == caps
    then caps_key
    else if code == numl
    then numl_key
    else no_role

abbrev same_role : Role → Role → Bool
same_role shift_key shift_key = true
same_role caps_key caps_key = true
same_role numl_key numl_key = true
same_role no_role no_role = true
same_role _ _ = false

same_role_lem : (a b : Role) → same_role a b ≡ true → a ≡ b
same_role_lem a b h = ground (arith, h)

and_left : (a b : Bool) → (a && b) ≡ true → a ≡ true
and_left a b h = ground (arith, h)

and_right : (a b : Bool) → (a && b) ≡ true → b ≡ true
and_right a b h = ground (arith, h)

-- The entries of a row, from position `i` on, have the roles of their positions.
abbrev agrees : List ℕ → ℕ → Bool
agrees [] i = leb 70 i
agrees (x ∷ xs) i = same_role (role_of x) (role_at i) && agrees xs (i + 1)

agrees-nth : (xs : List ℕ) (i j : ℕ) → agrees xs i ≡ true → role_of (nth xs j) ≡ role_at (i + j)
unfolding nth
agrees-nth [] i j h = ground (arith, h)
agrees-nth (x ∷ xs) i zero h =
    let e : role_of x ≡ role_at i = same_role_lem (role_of x) (role_at i) (and_left _ _ h) in
    let z : i + 0 ≡ i = omega arith in rw z e
agrees-nth (x ∷ xs) i (suc j) h =
    let z : i + suc j ≡ i + 1 + j = omega arith in rw z (agrees-nth xs (i + 1) j (and_right _ _ h))

lower_case-agrees : agrees lower_case 0 ≡ true
lower_case-agrees = refl

lower_numlock-agrees : agrees lower_numlock 0 ≡ true
lower_numlock-agrees = refl

upper_case-agrees : agrees upper_case 0 ≡ true
upper_case-agrees = refl

upper_numlock-agrees : agrees upper_numlock 0 ≡ true
upper_numlock-agrees = refl

-- A row of the table.
abbrev row : Bool → Bool → List ℕ
row upper lock =
    if upper
    then if lock then upper_numlock else upper_case
    else if lock
    then lower_numlock
    else lower_case

row-agrees : (upper lock : Bool) → agrees (row upper lock) 0 ≡ true
row-agrees true true = upper_numlock-agrees
row-agrees true false = upper_case-agrees
row-agrees false true = lower_numlock-agrees
row-agrees false false = lower_case-agrees

-- All rows of the table have the modifiers in the same places.
keymap-role_at : (m : Modifiers) (key : ℕ) → role_of (keymap m key) ≡ role_at key
unfolding keymap
keymap-role_at m key =
    let none : 0 + key ≡ key = omega arith in
    subst (λ j. role_of (keymap m key) ≡ role_at j) none
      (agrees-nth (row (exclusive_or m.shift m.caps_on) m.numlk) 0 key
        (row-agrees (exclusive_or m.shift m.caps_on) m.numlk))

-- A key of a role goes down, and goes up.
abbrev pub pressed : Role → Modifiers → Modifiers
pressed shift_key m = record m { shift = true }
pressed caps_key m = record m { caps_on = not m.caps_on }
pressed numl_key m = record m { numlk = true }
pressed no_role m = m

abbrev pub released : Role → Modifiers → Modifiers
released shift_key m = record m { shift = false }
released caps_key m = m
released numl_key m = record m { numlk = false }
released no_role m = m

press-pressed : (code : ℕ) (m : Modifiers) → (press code m).0 ≡ pressed (role_of code) m
unfolding press
press-pressed code m = ground arith

release-released : (code : ℕ) (m : Modifiers) → (release code m).0 ≡ released (role_of code) m
unfolding release
release-released code m = ground arith

-- The modifiers after each scan code, by the position of its key alone. The code 0xE0 is a prefix.
abbrev pub modified : ℕ → Modifiers → Modifiers
modified scan m =
    if scan == 0xE0
    then m
    else if ltb scan 128
    then pressed (role_at scan) m
    else released (role_at (scan - 128)) m

abbrev pub modified_all : List ℕ → Modifiers → Modifiers
modified_all [] m = m
modified_all (scan ∷ scans) m = modified_all scans (modified scan m)

key_event-modified : (scan : ℕ) (m : Modifiers) → (key_event scan m).0 ≡ modified scan m
unfolding key_event
key_event-modified scan m = ground (
  arith,
  press-pressed (keymap m scan) m,
  keymap-role_at m scan,
  release-released (keymap m (scan - 128)) m,
  keymap-role_at m (scan - 128),
)

-- Whatever scan codes come in, and whichever row of the table is in use when they do: either shift
-- key sets and clears `shift`, each press of caps lock toggles `caps`, num lock sets and clears
-- `numlk`, and no other key changes them. A press and the release of one key are never read as two
-- different modifiers.
pub keyboard-modified_all :
    (scans : List ℕ) (m : Modifiers) → keyboard scans m ≡ modified_all scans m
unfolding keyboard
keyboard-modified_all [] m = refl
keyboard-modified_all (scan ∷ scans) m =
    keyboard-modified_all scans (key_event scan m).0
    ∙ ap (λ n. modified_all scans n) (key_event-modified scan m)
