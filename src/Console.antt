-- ===== src/Console.antt =====
-- The keyboard interrupt of keyboard.c and the line input of input.c, which share the page at
-- 0xD0000000: byte 0 counts the characters of the line, byte 1 is 1 while a caller waits for a line
-- and 2 once it is complete, and the characters stand from byte 2 on.
pub mod Editor
pub mod Typing
pub mod Fetch
pub mod Line
pub mod Tests
use myreallyoldkernel.Memory.{Memory, store8}
use myreallyoldkernel.Prelude.{
  ℕ, zero, suc, ◌+◌, ◌-◌, ◌%◌, Bool, not, ◌&&◌, ◌||◌, Option, none, some, List, [], ◌∷◌, ◌++◌, ltb,
  ◌==◌, if◌then◌else◌, get_elem?,
}

-- `scLower` and `scUpper` have 58 entries each.
abbrev pub sc_lower : List ℕ
sc_lower =
    0 ∷ 0 ∷ b'1' ∷ b'2' ∷ b'3' ∷ b'4' ∷ b'5' ∷ b'6' ∷ b'7' ∷ b'8' ∷ b'9' ∷ b'0' ∷ b'-' ∷ b'=' ∷ b'0'
    ∷ 9 ∷ b'q' ∷ b'w' ∷ b'e' ∷ b'r' ∷ b't' ∷ b'y' ∷ b'u' ∷ b'i' ∷ b'o' ∷ b'p' ∷ b'[' ∷ b']' ∷ 10 ∷ 0
    ∷ b'a' ∷ b's' ∷ b'd' ∷ b'f' ∷ b'g' ∷ b'h' ∷ b'j' ∷ b'k' ∷ b'l' ∷ b';' ∷ 0 ∷ 0 ∷ 0 ∷ 0 ∷ b'z'
    ∷ b'x' ∷ b'c' ∷ b'v' ∷ b'b' ∷ b'n' ∷ b'm' ∷ b',' ∷ b'.' ∷ b'/' ∷ 0 ∷ 0 ∷ 0 ∷ b' ' ∷ []

abbrev pub sc_upper : List ℕ
sc_upper =
    0 ∷ 0 ∷ b'!' ∷ b'@' ∷ b'#' ∷ b'$' ∷ b'%' ∷ b'^' ∷ b'&' ∷ b'*' ∷ b'(' ∷ b')' ∷ b'_' ∷ b'+' ∷ b'0'
    ∷ 9 ∷ b'Q' ∷ b'W' ∷ b'E' ∷ b'R' ∷ b'T' ∷ b'Y' ∷ b'U' ∷ b'I' ∷ b'O' ∷ b'P' ∷ b'{' ∷ b'}' ∷ 10 ∷ 0
    ∷ b'A' ∷ b'S' ∷ b'D' ∷ b'F' ∷ b'G' ∷ b'H' ∷ b'J' ∷ b'K' ∷ b'L' ∷ b':' ∷ 0 ∷ 0 ∷ 0 ∷ 0 ∷ b'Z'
    ∷ b'X' ∷ b'C' ∷ b'V' ∷ b'B' ∷ b'N' ∷ b'M' ∷ b'<' ∷ b'>' ∷ b'?' ∷ 0 ∷ 0 ∷ 0 ∷ b' ' ∷ []

-- What the screen is told: `kprintf ("%c", c)` or `backspace ()`.
pub data Echo : Type 0 where
  put : ℕ → Echo
  erase : Echo

pub record Console : Type 0 where
  pub input : Memory
  pub shift_down : ℕ
  pub screen : List Echo

-- The bytes that the linker puts behind the two tables, by index.
pub record Behind : Type 0 where
  pub lower : ℕ → ℕ
  pub upper : ℕ → ℕ

abbrev pub enter : ℕ
enter = 0x1C

abbrev pub backspace_key : ℕ
backspace_key = 0x0E

unfoldable pub entry : List ℕ → (ℕ → ℕ) → ℕ → ℕ
entry table behind i = elim (get_elem? table i) [ none ↦ behind i | some c ↦ c ]

unfoldable pub key_char : Behind → ℕ → ℕ → ℕ
unfolding entry
key_char behind shift inch =
    if shift == 0 then entry sc_lower behind.lower inch else entry sc_upper behind.upper inch

-- A key below 0x58 that is pressed.
unfoldable pub press : Behind → Console → ℕ → Console
press behind s inch =
    let c = key_char behind s.shift_down inch in
    let saved = if s.input 1 == 1 then store8 s.input (s.input 0 + 2) c else s.input in
    let counted = store8 saved 0 ((saved 0 + 1) % 256) in
    record {
      input = if inch == enter then store8 (store8 counted 1 2) 0 0 else counted;
      shift_down = s.shift_down;
      screen = s.screen ++ put c ∷ [];
    }

-- `inch` is the byte that port 0x60 returned.
unfoldable pub keyboard : Behind → Console → ℕ → Console
unfolding press
keyboard behind s inch =
    if inch == 0x2a || inch == 0x36
    then record s { shift_down = 1 }
    else if inch == 0x2a + 0x80 || inch == 0x36 + 0x80
    then record s { shift_down = 0 }
    else if inch == backspace_key && not (s.input 0 == 0)
    then record s {
      input = store8 s.input 0 ((s.input 0 + 255) % 256);
      screen = s.screen ++ erase ∷ [];
    }
    else if ltb inch 0x58
    then press behind s inch
    else s

-- The interrupts that come while a caller waits, in order.
unfoldable pub keys : Behind → Console → List ℕ → Console
keys behind s [] = s
keys behind s (inch ∷ rest) = keys behind (keyboard behind s inch) rest

-- `inputBuf [1] = 1`, with which getch and getstr begin.
unfoldable pub request : Console → Console
unfolding store8
request s = record s { input = store8 s.input 1 1 }

-- The loop of getstr behind its wait, from index `i`: it ends at the newline. `none` is a line whose
-- newline is not found within the fuel.
unfoldable pub copy_line : ℕ → Memory → ℕ → Memory → Option (ℕ × Memory)
unfolding store8
copy_line zero input i buf = none
copy_line (suc fuel) input i buf =
    let rest = copy_line fuel input (i + 1) (store8 buf (i - 2) (input i)) in
    if input i == 10 then some (i, buf) else rest

-- The page of the input buffer.
abbrev pub line_fuel : ℕ
line_fuel = 4096

-- getstr once `inputBuf [1]` is 2: the caller's buffer, and the console after
-- `inputBuf [i] = 0`. A call that still waits has no result.
unfoldable pub getstr_within : ℕ → Console → Memory → Option (Memory × Console)
getstr_within fuel s buf =
    if s.input 1 == 2
    then elim (copy_line fuel s.input 2 buf) [
      | none ↦ none
      | some (i, buf') ↦ some (buf', record s { input = store8 s.input i 0 })
    ]
    else none

unfoldable pub getstr : Console → Memory → Option (Memory × Console)
getstr s buf = getstr_within line_fuel s buf

unfoldable pub getch : Console → Option ℕ
getch s = if s.input 1 == 2 then some (s.input 2) else none
