-- ===== src/Debug.antt =====
-- The debugging output of src/kernel/debug.c on the serial port.
pub mod Itoa
pub mod Text
use pinion.Base.{
  Bool, ◌||◌, ℕ, zero, suc, ◌+◌, ◌-◌, ◌*◌, ◌/◌, ◌%◌, ◌^◌, bit_and, List, [], ◌∷◌, Run, ok, crash,
  Cmd, pure, fail, get, put, modify, when, ◌>>=◌, ◌>>◌, ltb, leb, ◌==◌, if◌then◌else◌, update,
  length, hang, divide_error, out_of_bounds, panic,
}
use pinion.Bytes.{Bytes}

-- The character of a digit, `d[k]`.
unfoldable pub digit_char : ℕ → ℕ
digit_char k = if ltb k 10 then b'0' + k else b'A' + (k - 10)

-- The first loop of `__itoa`, on fuel, from place `i`: it returns the number of digits.
unfoldable pub digit_loop : ℕ → ℕ → ℕ → ℕ → Cmd Bytes ℕ
unfolding digit_char
digit_loop zero base i n = fail hang
digit_loop (suc fuel) base i n =
    let rest = digit_loop fuel base (i + 1) (n / base) in
    if n == 0 then pure i else modify (λ b. update b i (digit_char (n % base))) >> rest

-- The second loop, which reverses the digits: `left` rounds from place `i` on.
unfoldable pub reverse_loop : ℕ → ℕ → ℕ → Bytes → Bytes
reverse_loop zero size i b = b
reverse_loop (suc left) size i b =
    reverse_loop left size (i + 1) (update (update b (size - i - 1) (b i)) i (b (size - i - 1)))

-- 32 bits have at most 32 digits from base 2 on; in base 1 the source does not stop.
unfoldable pub itoa : ℕ → ℕ → Cmd Bytes (Unit {0})
itoa n base =
    if n == 0
    then modify (λ b. update (update b 0 b'0') 1 0)
    else if ltb 16 base
    then modify (λ b. update b 0 0)
    else if base == 0
    then fail divide_error
    else do
      size ← digit_loop 33 base 0 n
      modify (λ b. update b size 0)
      modify (reverse_loop (size / 2) size 0)

-- `status`: what the reads of the port 0x3FD give in turn, of which `reads` are done. `patience`: the
-- reads that one wait may take; the source waits without end. `ports`: what was written to ports,
-- newest first.
pub record Serial : Type 0 where
  pub status : ℕ → ℕ
  pub reads : ℕ
  pub patience : ℕ
  pub ports : List (ℕ × ℕ)

abbrev pub SerialCmd : Type 0 → Type 0
SerialCmd A = Cmd Serial A

abbrev write_port : ℕ → ℕ → SerialCmd (Unit {0})
write_port port value = modify (λ s. record s { ports = (port, value) ∷ s.ports })

-- `while (!(inb(0x3FD) & 0x20));`
unfoldable pub wait_ready : ℕ → SerialCmd (Unit {0})
wait_ready zero s = crash hang
wait_ready (suc fuel) s =
    let rest = wait_ready fuel (record s { reads = s.reads + 1 }) in
    if bit_and (s.status s.reads) 0x20 == 0 then rest else ok tt (record s { reads = s.reads + 1 })

unfoldable pub put_char : ℕ → SerialCmd (Unit {0})
put_char c = do s ← get; wait_ready s.patience; write_port 0x3F8 c

-- The call of `debug_char` in itself writes a '\r', which makes no further call.
unfoldable pub debug_char : ℕ → SerialCmd (Unit {0})
debug_char c = put_char c >> when (c == 10) (put_char 13)

-- The loop of `debug_string` over the string at `p`, on fuel.
unfoldable pub string_loop : ℕ → Bytes → ℕ → SerialCmd (Unit {0})
string_loop zero b p = fail hang
string_loop (suc fuel) b p =
    let rest = string_loop fuel b (p + 1) in if b p == 0 then pure tt else debug_char (b p) >> rest

-- The memory ends after 2^32 bytes.
abbrev pub string_fuel : ℕ
string_fuel = 2 ^ 32

unfoldable pub debug_string : Bytes → ℕ → SerialCmd (Unit {0})
debug_string b p = string_loop string_fuel b p

-- The characters of `fmtbuffer`, newest first, with the terminating NUL written behind them: the
-- buffer has 100 places.
unfoldable pub put_all : List ℕ → SerialCmd (Unit {0})
unfolding debug_char
put_all [] = pure tt
put_all (c ∷ cs) = put_all cs >> debug_char c

unfoldable pub flush : List ℕ → SerialCmd (Unit {0})
unfolding put_all
flush buffer = if leb 100 (length buffer) then fail out_of_bounds else put_all buffer

-- A number in `char buffer[13]`.
unfoldable pub print_number : ℕ → ℕ → SerialCmd (Unit {0})
unfolding itoa debug_string
print_number n base s = elim (itoa n base (λ _. 0)) [
  | ok _ buffer ↦ debug_string buffer 0 s
  | crash c ↦ crash c
]

-- "(null)"
abbrev null_text : List ℕ
null_text = b')' ∷ b'l' ∷ b'l' ∷ b'u' ∷ b'n' ∷ b'(' ∷ []

-- One conversion with its argument.
unfoldable pub convert : Bytes → ℕ → ℕ → SerialCmd (Unit {0})
unfolding print_number debug_string put_all debug_char
convert b c arg =
    if (c == b'x') || (c == b'X')
    then print_number arg 16
    else if (c == b'd') || (c == b'i')
    then print_number arg 10
    else if c == b's'
    then if arg == 0 then put_all null_text else debug_string b arg
    else if c == b'c'
    then debug_char (arg % 256)
    else pure tt

unfoldable pub takes_argument : ℕ → Bool
takes_argument c =
    (c == b'x') || (c == b'X') || (c == b'd') || (c == b'i') || (c == b's') || (c == b'c')

-- A conversion that takes an argument; where none is left the source reads past them.
unfoldable pub with_argument : Bytes → ℕ → List ℕ → SerialCmd (List ℕ)
unfolding convert
with_argument b c [] = fail out_of_bounds
with_argument b c (arg ∷ args) = convert b c arg >> pure args

-- The conversion `c`: it prints, and leaves the arguments after its own.
unfoldable pub conversion : Bytes → ℕ → List ℕ → SerialCmd (List ℕ)
unfolding with_argument takes_argument debug_char
conversion b c args =
    if c == b'%'
    then debug_char b'%' >> pure args
    else if takes_argument c
    then with_argument b c args
    else pure args

-- The loop of `debug_printf` over the format at `p`, on fuel. After a '%' the source steps over the
-- next character without a look at it, also where that is the end of the string.
unfoldable pub format_loop : ℕ → Bytes → ℕ → List ℕ → List ℕ → SerialCmd (Unit {0})
unfolding flush conversion
format_loop zero b p buffer args = fail hang
format_loop (suc fuel) b p buffer args =
    let after = format_loop fuel b (p + 2) [] in
    let next = format_loop fuel b (p + 1) (b p ∷ buffer) args in
    if b p == 0
    then flush buffer
    else if b p == b'%'
    then flush buffer >> (conversion b (b (p + 1)) args >>= after)
    else if leb 100 (length buffer)
    then fail out_of_bounds
    else next

unfoldable pub debug_printf : Bytes → ℕ → List ℕ → SerialCmd (Unit {0})
unfolding format_loop
debug_printf b format args = format_loop string_fuel b format [] args

unfoldable pub debug_init : SerialCmd (Unit {0})
debug_init = do
  write_port 0x3F9 0x00
  write_port 0x3FB 0x80
  write_port 0x3F8 0x03
  write_port 0x3F9 0x00
  write_port 0x3FB 0x03
  write_port 0x3FA 0xC7
  write_port 0x3FC 0x0B

-- "Kernel panic: %s\n" at `text`; then the processor halts.
unfoldable pub debug_panic : Bytes → ℕ → ℕ → SerialCmd (Unit {0})
unfolding debug_printf
debug_panic b text message = debug_printf b text (message ∷ []) >> fail panic
