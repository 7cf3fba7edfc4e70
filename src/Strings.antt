-- ===== src/Strings.antt =====
-- Numbers as text: stoi, itos and stox of string.asm, over a memory of bytes and 32-bit registers.
pub mod Decimal
pub mod Tests
use myreallyoldkernel.Memory.{Memory}
use myreallyoldkernel.Prelude.{
  ℕ, zero, suc, ◌+◌, ◌-◌, ◌*◌, ◌/◌, ◌%◌, ◌^◌, Bool, ◌&&◌, ◌||◌, Option, none, some, List, [], ◌∷◌,
  ltb, leb, ◌==◌, if◌then◌else◌,
}
use myreallyoldkernel.Vfs.{Text}

-- The x86 `neg` of a 32-bit register.
abbrev pub neg32 : ℕ → ℕ
neg32 a = (2 ^ 32 - a) % 2 ^ 32

-- `sub ebx, '0'; cmp ebx, 9; ja`: the comparison is unsigned, so a byte below '0' is no digit.
abbrev pub is_digit : ℕ → Bool
is_digit c = leb b'0' c && leb c b'9'

abbrev pub minus : ℕ
minus = b'-'

-- The loop of stoi from an address on; `none` is a text with more digits than the fuel.
unfoldable pub convert_to_int : ℕ → Memory → ℕ → ℕ → Option ℕ
convert_to_int zero m address value = none
convert_to_int (suc fuel) m address value =
    let rest = convert_to_int fuel m (address + 1) ((value * 10 + (m address - b'0')) % 2 ^ 32) in
    if is_digit (m address) then rest else some value

-- The sign at the end of stoi.
abbrev pub negated : Option ℕ → Option ℕ
negated none = none
negated (some n) = some (neg32 n)

unfoldable pub stoi : ℕ → Memory → ℕ → Option ℕ
unfolding convert_to_int
stoi fuel m address =
    if m address == minus
    then negated (convert_to_int fuel m (address + 1) 0)
    else convert_to_int fuel m address 0

-- The division loop of itos, which pushes the digits, lowest first, and pops them.
unfoldable pub push_digits : ℕ → ℕ → Text → Option Text
push_digits zero n pushed = none
push_digits (suc fuel) n pushed =
    let rest = push_digits fuel (n / 10) ((n % 10 + b'0') ∷ pushed) in
    if n / 10 == 0 then some ((n % 10 + b'0') ∷ pushed) else rest

-- A 32-bit number has ten digits at most.
abbrev pub digit_fuel : ℕ
digit_fuel = 10

abbrev pub after_minus : Option Text → Option Text
after_minus none = none
after_minus (some text) = some (minus ∷ text)

-- itos up to the zero bytes that its last dword store leaves behind the text.
unfoldable pub itos : ℕ → Option Text
unfolding push_digits
itos n =
    if ltb n (2 ^ 31)
    then push_digits digit_fuel n []
    else after_minus (push_digits digit_fuel (neg32 n) [])

-- What `%d` prints.
unfoldable pub text_of : ℕ → Text
unfolding itos
text_of n = elim (itos n) [ none ↦ [] | some t ↦ t ]

-- What stox takes from a byte: it compares bytes as signed numbers, and cuts the difference to 8 bits.
unfoldable pub hex_digit : ℕ → ℕ
hex_digit c =
    if ltb c 58 || leb 128 c
    then (c + 256 - 48) % 256
    else if ltb c 71
    then (c + 256 - 55) % 256
    else (c + 256 - 87) % 256

-- stox, up to the zero byte.
unfoldable pub stox : ℕ → Memory → ℕ → ℕ → Option ℕ
unfolding hex_digit
stox zero m address value = none
stox (suc fuel) m address value =
    let rest = stox fuel m (address + 1) ((value * 16 + hex_digit (m address)) % 2 ^ 32) in
    if m address == 0 then some value else rest

abbrev pub hex_char : ℕ → ℕ
hex_char nibble = if ltb nibble 10 then b'0' + nibble else 55 + nibble

-- itox: the lowest `n` hexadecimal digits of a number, before what is printed behind them; 8 for `i`, 4
-- for `s` and 2 for `b`.
unfoldable pub itox : ℕ → ℕ → Text → Text
itox zero n printed = printed
itox (suc digits) n printed = itox digits (n / 16) (hex_char (n % 16) ∷ printed)

-- The string at an address, up to its zero byte.
unfoldable pub c_string : ℕ → Memory → ℕ → Text
c_string zero m address = []
c_string (suc n) m address =
    let rest = c_string n m (address + 1) in if m address == 0 then [] else m address ∷ rest
