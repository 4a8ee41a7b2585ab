-- ===== src/System/Monitor.antt =====
-- The text screen of src/system/monitor.c.
pub mod Cursor
pub mod Hex
pub mod Decimal
use pinion.Base.{
  ℕ, zero, suc, ◌+◌, ◌-◌, ◌*◌, ◌/◌, ◌%◌, ◌^◌, bit_or, Bool, ◌&&◌, ◌||◌, not, List, [], ◌∷◌, Run, ok,
  crash, Cmd, pure, fail, get, modify, when, ◌>>=◌, ◌>>◌, ltb, leb, ◌==◌, if◌then◌else◌, update,
  length, hang, out_of_bounds,
}
use pinion.Vm.{u32}
use pinion.Bytes.{Bytes}
use pinion.Debug.{digit_char}

abbrev pub scrwidth : ℕ
scrwidth = 80

abbrev pub scrheight : ℕ
scrheight = 25

-- `cells`: the video memory, a `uint16_t` for each place. `ports`: what was written, newest first.
pub record Screen : Type 0 where
  pub cells : ℕ → ℕ
  pub cursor : ℕ
  pub color : ℕ
  pub ports : List (ℕ × ℕ)

abbrev pub ScreenCmd : Type 0 → Type 0
ScreenCmd A = Cmd Screen A

-- The two loops of `scroll`, with `left` rounds to go, from place `i` on.
unfoldable pub move_up : ℕ → ℕ → (ℕ → ℕ) → ℕ → ℕ
move_up zero i cells = cells
move_up (suc left) i cells = move_up left (i + 1) (update cells i (cells (i + scrwidth)))

unfoldable pub fill_cells : ℕ → ℕ → ℕ → (ℕ → ℕ) → ℕ → ℕ
fill_cells zero value i cells = cells
fill_cells (suc left) value i cells = fill_cells left value (i + 1) (update cells i value)

unfoldable pub scroll : Screen → Screen
scroll s =
    if leb (scrheight * 80) s.cursor
    then record s {
      cells = fill_cells 80 0x0F20 (24 * scrwidth) (move_up (24 * scrwidth) 0 s.cells);
      cursor = scrwidth * 24;
    }
    else s

unfoldable pub move_cursor : Screen → Screen
move_cursor s = record s {
  ports = (0x3D5, s.cursor % 256) ∷ (0x3D4, 15) ∷ (0x3D5, s.cursor / 2 ^ 8) ∷ (0x3D4, 14) ∷ s.ports;
}

unfoldable pub clear : Screen → Screen
unfolding move_cursor
clear s = move_cursor (record s { cells = fill_cells (80 * 25) 0x0F00 0 s.cells; cursor = 0 })

unfoldable pub setcolor : ℕ → Screen → Screen
setcolor col s = record s { color = col % 256 * 2 ^ 8 }

-- What `printc` does before it scrolls. A `char` is signed: bytes from 128 on are below ' '.
unfoldable pub put_cell : ℕ → Screen → Screen
put_cell c s =
    if c == 10
    then record s { cursor = (s.cursor - s.cursor % 80 + 80) % 2 ^ 16 }
    else if c == 9
    then record s { cursor = (s.cursor - s.cursor % 8 + 8) % 2 ^ 16 }
    else if leb 32 c && ltb c 128
    then record s {
      cells = update s.cells s.cursor (bit_or s.color c);
      cursor = (s.cursor + 1) % 2 ^ 16;
    }
    else s

unfoldable pub printc : ℕ → Screen → Screen
printc c s = move_cursor (scroll (put_cell c s))

-- The memory ends after 2^32 bytes.
abbrev pub text_fuel : ℕ
text_fuel = 2 ^ 32

-- The loop of `strtoul` from `p` on, on fuel.
unfoldable pub number_loop : ℕ → Bytes → ℕ → ℕ → ScreenCmd ℕ
number_loop zero b p tmp = fail hang
number_loop (suc fuel) b p tmp =
    let rest = number_loop fuel b (p + 1) ((tmp * 10 % 2 ^ 64 + (b p - b'0')) % 2 ^ 64) in
    if leb b'0' (b p) && leb (b p) b'9' then rest else pure tmp

unfoldable pub strtoul : Bytes → ℕ → ScreenCmd ℕ
unfolding number_loop
strtoul b str = number_loop text_fuel b str 0

unfoldable pub color_of : ℕ → ℕ → ℕ
color_of bg fg = bg % 16 * 2 ^ 4 + fg % 16

-- The colours 30 to 37 in the order of the codes: black, red, green, yellow, blue, magenta, cyan,
-- white. Yellow has no effect.
unfoldable pub ansi : ℕ → ℕ
ansi k =
    if k == 0
    then 0
    else if k == 1
    then 4
    else if k == 2
    then 2
    else if k == 4
    then 1
    else if k == 5
    then 5
    else if k == 6
    then 3
    else 15

-- The switch of `escape`.
unfoldable pub apply_code : ℕ → Screen → Screen
unfolding color_of ansi setcolor
apply_code code s =
    if leb 30 code && leb code 37 && not (code == 33)
    then setcolor (color_of (s.color / 2 ^ 12) (ansi (code - 30))) s
    else if leb 40 code && leb code 47 && not (code == 43)
    then setcolor (color_of (ansi (code - 40)) (s.color / 2 ^ 8 % 16)) s
    else s

-- `while(str[i] != 'm' && str[i] != ';') i++;`, on fuel: the place where it stops.
unfoldable pub skip_loop : ℕ → Bytes → ℕ → ScreenCmd ℕ
skip_loop zero b p = fail hang
skip_loop (suc fuel) b p =
    let rest = skip_loop fuel b (p + 1) in if (b p == b'm') || (b p == b';') then pure p else rest

-- The loop of `escape` over the codes, on fuel.
unfoldable pub code_loop : ℕ → Bytes → ℕ → ScreenCmd (Unit {0})
unfolding strtoul apply_code skip_loop
code_loop zero b p = fail hang
code_loop (suc fuel) b p = if b p == b'm' then pure tt else do
  code ← strtoul b p
  modify (apply_code code)
  q ← skip_loop text_fuel b p
  code_loop fuel b (if b q == b';' then q + 1 else q)

unfoldable pub escape : Bytes → ℕ → ScreenCmd (Unit {0})
unfolding code_loop
escape b str = if b str == b'[' then code_loop text_fuel b (str + 1) else pure tt

-- `while(string[++i] != 'm');` from the place before, on fuel: the place of the 'm'.
unfoldable pub find_m : ℕ → Bytes → ℕ → ScreenCmd ℕ
find_m zero b p = fail hang
find_m (suc fuel) b p = let rest = find_m fuel b (p + 1) in if b p == b'm' then pure p else rest

-- The loop of `prints`, on fuel.
unfoldable pub prints_loop : ℕ → Bytes → ℕ → ScreenCmd (Unit {0})
unfolding printc escape find_m
prints_loop zero b p = fail hang
prints_loop (suc fuel) b p =
    let after = λ (q : ℕ). prints_loop fuel b (q + 1) in
    let next = prints_loop fuel b (p + 1) in
    if b p == 0
    then pure tt
    else if b p == 0x1B
    then escape b (p + 1) >> (find_m text_fuel b (p + 1) >>= after)
    else modify (printc (b p)) >> next

unfoldable pub prints : Bytes → ℕ → ScreenCmd (Unit {0})
unfolding prints_loop
prints b string = prints_loop text_fuel b string

-- `(x >> (4 * i)) & 0xF`
unfoldable pub nibble : ℕ → ℕ → ℕ
nibble x i = x / 2 ^ (4 * i) % 16

-- The `while` loop of `printx`: the highest place from `i` down whose digit is not 0.
unfoldable pub leading : ℕ → ℕ → ℕ
leading x zero = zero
leading x (suc i) = let rest = leading x i in if nibble x (suc i) == 0 then rest else suc i

-- The digits from place `i` down.
unfoldable pub print_nibbles : ℕ → ℕ → Screen → Screen
unfolding printc nibble digit_char
print_nibbles x zero s = printc (digit_char (nibble x zero)) s
print_nibbles x (suc i) s = print_nibbles x i (printc (digit_char (nibble x (suc i))) s)

unfoldable pub printx : ℕ → Screen → Screen
unfolding leading print_nibbles
printx x s = if x == 0 then printc b'0' s else print_nibbles x (leading x 7) s

unfoldable pub printp : ℕ → Screen → Screen
unfolding print_nibbles
printp p s = print_nibbles p 7 s

-- The first loop of `printd`, on fuel: the digits in `buffer`, which has 10 places, newest first.
unfoldable pub decimal_loop : ℕ → ℕ → List ℕ → ScreenCmd (List ℕ)
unfolding digit_char
decimal_loop zero x buffer = fail hang
decimal_loop (suc fuel) x buffer =
    let rest = decimal_loop fuel (x / 10) (digit_char (x % 10) ∷ buffer) in
    if x == 0 then pure buffer else if leb 10 (length buffer) then fail out_of_bounds else rest

-- The second loop prints the newest first.
unfoldable pub print_chars : List ℕ → Screen → Screen
unfolding printc
print_chars [] s = s
print_chars (c ∷ cs) s = print_chars cs (printc c s)

-- `printd` of a number that is not negative, and of one that is, with its absolute value. That of the
-- smallest `int` is none: the source then takes a digit from outside the table.
unfoldable pub print_decimal : ℕ → ScreenCmd (Unit {0})
print_decimal x =
    if x == 0
    then modify (printc b'0')
    else if leb (2 ^ 31) x
    then fail out_of_bounds
    else do buffer ← decimal_loop 11 x []; modify (print_chars buffer)

unfoldable pub printd : ℕ → ScreenCmd (Unit {0})
printd x =
    if leb (2 ^ 31) x then modify (printc b'-') >> print_decimal (u32 - x) else print_decimal x
