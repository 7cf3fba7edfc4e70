-- ===== src/Strings/Tests.antt =====
-- The text of a negative number in memory.
use myreallyoldkernel.Memory.{Memory}
use myreallyoldkernel.Prelude.{ℕ, ◌≤◌, ◌≡◌, refl, arith, some, get_or, length, ◌∷◌, []}
use myreallyoldkernel.Strings.{stoi, itos, text_of, push_digits}
use myreallyoldkernel.Strings.Decimal.{stoi-itos}

-- "-47"
abbrev memory : Memory
memory = λ a. get_or (b'-' ∷ b'4' ∷ b'7' ∷ []) a 0

abbrev number : ℕ
number = 0xFFFF_FFD1

stoi-itos_example :
    (itos number ≡ some (text_of number))
    × (length (text_of number) ≤ 11)
    × (stoi 12 memory 0 ≡ some number)
unfolding text_of itos push_digits
stoi-itos_example =
    stoi-itos number 12 memory 0 (omega arith) (omega arith) (refl, (refl, (refl, refl)))
