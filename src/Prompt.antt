-- ===== src/Prompt.antt =====
-- The command prompt of prompt.c, with getint of input.c. The lines that a user types while the
-- prompt waits are a list of lists of scan codes, each without the enter key that ends it. A local
-- array is what its stack page held: `stack`, read from 0, which also stands for the bytes behind it.
pub mod Keys
pub mod Numbers
pub mod Tests
use myreallyoldkernel.Console.{Behind, Console, keyboard, keys, request, getstr, enter}
use myreallyoldkernel.Memory.{Memory, kmemset}
use myreallyoldkernel.Prelude.{
  ℕ, zero, suc, ◌+◌, ◌-◌, ◌*◌, ◌/◌, ◌%◌, ◌^◌, Bool, not, ◌&&◌, ◌||◌, Option, none, some, List, [],
  ◌∷◌, ◌++◌, ltb, ◌==◌, if◌then◌else◌, ◌>>=◌,
}
use myreallyoldkernel.Strings.{stoi, stox, text_of, itox, neg32, c_string}
use myreallyoldkernel.Vfs.{Text, Vfs, strcmp, ls_dir}

-- The keyboard's state, and the lines still to be typed.
pub record Session : Type 0 where
  pub console : Console
  pub lines : List (List ℕ)

-- A bound on the bytes that a conversion reads: more than a page.
abbrev pub text_fuel : ℕ
text_fuel = 4097

-- A call of getstr while the next line is typed. `none` is a call that waits for ever.
unfoldable pub read_line : Behind → Session → Memory → Option (Memory × Session)
read_line behind s buf = elim s.lines [
  | [] ↦ none
  | typed ∷ lines ↦
      elim (getstr (keyboard behind (keys behind (request s.console) typed) enter) buf) [
        | none ↦ none
        | some (buf', console) ↦ some (buf', record { console = console; lines = lines })
      ]
]

-- getint of input.c, with what it leaves in its array. The array has ten bytes, and what getstr writes
-- behind them lands on the stack.
unfoldable pub getint_from : Behind → Memory → Session → Option ((ℕ × Memory) × Session)
unfolding read_line
getint_from behind stack s = do
  (num_str, s') ← read_line behind s stack
  n ← stoi text_fuel num_str 0
  some ((n, num_str), s')

unfoldable pub getint : Behind → Memory → Session → Option (ℕ × Session)
unfolding getint_from
getint behind stack s = do ((n, _), s') ← getint_from behind stack s; some (n, s')

-- The stack under a command: what getint's array holds at the command's first call of it, what the
-- kprintf between two calls leaves of it, since the second array is in the place of the first, and what
-- memdump's own array holds.
pub record Frames : Type 0 where
  pub numbers : Memory
  pub between : Memory → Memory
  pub address : Memory

unfoldable pub two_numbers : Behind → Frames → Session → Option ((ℕ × ℕ) × Session)
unfolding getint_from getint
two_numbers behind frames s = do
  ((num1, num_str), s1) ← getint_from behind frames.numbers s
  (num2, s2) ← getint behind (frames.between num_str) s1
  some ((num1, num2), s2)

-- `"%d+%d=%d\n"`, for an operator sign.
abbrev pub print_op : ℕ → ℕ → ℕ → ℕ → Text
print_op sign num1 num2 result =
    text_of num1 ++ sign ∷ text_of num2 ++ b'=' ∷ text_of result ++ 10 ∷ []

unfoldable pub add : Behind → Frames → Session → Option (Text × Session)
unfolding two_numbers
add behind frames s = do
  ((num1, num2), s') ← two_numbers behind frames s
  some (print_op b'+' num1 num2 ((num1 + num2) % 2 ^ 32), s')

unfoldable pub subtract : Behind → Frames → Session → Option (Text × Session)
unfolding two_numbers
subtract behind frames s = do
  ((num1, num2), s') ← two_numbers behind frames s
  some (print_op b'-' num1 num2 ((num1 + (2 ^ 32 - num2)) % 2 ^ 32), s')

unfoldable pub multiply : Behind → Frames → Session → Option (Text × Session)
unfolding two_numbers
multiply behind frames s = do
  ((num1, num2), s') ← two_numbers behind frames s
  some (print_op b'*' num1 num2 (num1 * num2 % 2 ^ 32), s')

-- The sign and the magnitude of an int32.
abbrev pub same_sign : ℕ → ℕ → Bool
same_sign num1 num2 = if ltb num1 (2 ^ 31) then ltb num2 (2 ^ 31) else not (ltb num2 (2 ^ 31))

abbrev pub magnitude : ℕ → ℕ
magnitude n = if ltb n (2 ^ 31) then n else neg32 n

-- The x86 `idiv`: `none` is the division fault, for a divisor of 0 or a quotient that does not fit.
unfoldable pub idiv : ℕ → ℕ → Option ℕ
idiv num1 num2 =
    let quotient = magnitude num1 / magnitude num2 in
    if num2 == 0
    then none
    else if same_sign num1 num2
    then (if ltb quotient (2 ^ 31) then some quotient else none)
    else some (neg32 quotient)

unfoldable pub divide : Behind → Frames → Session → Option (Text × Session)
unfolding two_numbers idiv
divide behind frames s = do
  ((num1, num2), s') ← two_numbers behind frames s
  result ← idiv num1 num2
  some (print_op b'/' num1 num2 result, s')

-- `"0x%xi "` and `" %xb"`
abbrev pub print_address : ℕ → Text
print_address address = b'0' ∷ b'x' ∷ itox 8 address (b' ' ∷ [])

abbrev pub print_byte : ℕ → Text
print_byte byte = b' ' ∷ itox 2 byte []

-- The while loop of memdump: `left` bytes from the `i`-th on.
unfoldable pub dump_bytes : ℕ → ℕ → Memory → ℕ → Text
unfolding itox
dump_bytes zero i m address = []
dump_bytes (suc left) i m address =
    let rest = dump_bytes left (i + 1) m ((address + 1) % 2 ^ 32) in
    let next_line = 10 ∷ print_address ((address + 1) % 2 ^ 32) in
    print_byte (m address) ++ (if (i + 1) % 16 == 0 && ltb 0 left then next_line ++ rest else rest)

unfoldable pub memdump : Behind → Frames → Memory → Session → Option (Text × Session)
unfolding read_line getint dump_bytes
memdump behind frames m s = do
  (buf, s1) ← read_line behind s frames.address
  address ← stox text_fuel buf 0 0
  (bytes, s2) ← getint behind frames.numbers s1
  some (print_address address ++ dump_bytes bytes 0 m address ++ 10 ∷ [], s2)

pub data Command : Type 0 where
  adds : Command
  subtracts : Command
  divides : Command
  multiplies : Command
  dumps : Command
  lists : Command
  unknown : Command

abbrev equals : Text → Text → Bool
equals command name = strcmp command name == 0

-- The tests of prompt, in order.
unfoldable pub command_of : Text → Command
unfolding strcmp
command_of command =
    if equals command (b'a' ∷ b'd' ∷ b'd' ∷ [])
    then adds
    else if equals command (b's' ∷ b'u' ∷ b'b' ∷ [])
    then subtracts
    else if equals command (b'd' ∷ b'i' ∷ b'v' ∷ [])
    then divides
    else if equals command (b'm' ∷ b'u' ∷ b'l' ∷ [])
    then multiplies
    else if equals command (b'm' ∷ b'e' ∷ b'm' ∷ b'd' ∷ b'u' ∷ b'm' ∷ b'p' ∷ [])
    then dumps
    else if equals command (b'l' ∷ b's' ∷ []) || equals command (b'd' ∷ b'i' ∷ b'r' ∷ [])
    then lists
    else unknown

-- One call, and what it prints; texts that depend on no input, such as "First Number: " and
-- "Unknown command", are left out.
unfoldable pub run_command : Behind → Frames → Memory → Command → Session → Option (Text × Session)
unfolding add subtract divide multiply memdump
run_command behind frames m adds s = add behind frames s
run_command behind frames m subtracts s = subtract behind frames s
run_command behind frames m divides s = divide behind frames s
run_command behind frames m multiplies s = multiply behind frames s
run_command behind frames m dumps s = memdump behind frames m s
run_command behind frames m lists s = some ([], s)
run_command behind frames m unknown s = some ([], s)

-- Rounds of the endless loop: what they print, the command's array and the session after. The array
-- is cleared behind each command. `frames` is the stack of each round, by the rounds that are left.
unfoldable pub prompt :
    ℕ → Behind → (ℕ → Frames) → Memory → Memory → Session → Option (Text × (Memory × Session))
unfolding read_line command_of run_command
prompt zero behind frames m command s = some ([], (command, s))
prompt (suc rounds) behind frames m command s = do
  (line, s1) ← read_line behind s command
  (printed, s2) ← run_command behind (frames rounds) m (command_of (c_string text_fuel line 0)) s1
  (rest, end) ← prompt rounds behind frames m (kmemset line 0 0 100) s2
  some (printed ++ rest, end)
