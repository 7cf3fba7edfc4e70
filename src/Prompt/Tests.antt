-- ===== src/Prompt/Tests.antt =====
-- A user who types 12 and -7.
use myreallyoldkernel.Console.{Behind, Console}
use myreallyoldkernel.Memory.{Memory}
use myreallyoldkernel.Prelude.{
  ℕ, none, ◌==◌, if◌then◌else◌, ◌+◌, ◌-◌, ◌*◌, ◌%◌, ◌^◌, ◌≡◌, refl, arith, some, [], ◌∷◌, ◌>>=◌,
}
use myreallyoldkernel.Prompt.{
  Session, Frames, add, subtract, multiply, divide, idiv, print_op, adds, command_of,
}
use myreallyoldkernel.Prompt.Keys.{keys_of}
use myreallyoldkernel.Prompt.Numbers.{IsReady, arithmetic-types}
use myreallyoldkernel.Strings.{stoi, convert_to_int, text_of, itos, push_digits}
use myreallyoldkernel.Vfs.{strcmp}

abbrev behind : Behind
behind = record { lower = λ _. 0; upper = λ _. 0 }

abbrev idle : Console
idle = record { input = λ _. 0; shift_down = 0; screen = [] }

-- Nothing on the stack, and nothing written over it between two calls.
abbrev frames : Frames
frames = record { numbers = λ _. 0; between = λ m. m; address = λ _. 0 }

-- 12 and then 7: the second text is shorter, and the digit behind it is read as part of it.
abbrev line_7 : Memory
line_7 = λ i. if i == 0 then b'7' else if i == 1 then b'2' else 0

reads_digit_behind : stoi 5 line_7 0 ≡ some 72
unfolding stoi convert_to_int
reads_digit_behind = refl

abbrev minus_seven : ℕ
minus_seven = 0xFFFF_FFF9

text_of-minus_seven : text_of minus_seven ≡ b'-' ∷ b'7' ∷ []
unfolding text_of itos push_digits
text_of-minus_seven = refl

-- Twelve divided by minus seven is minus one.
quotient_truncates : idiv 12 minus_seven ≡ some 0xFFFF_FFFF
unfolding idiv
quotient_truncates = refl

lowest_by_minus_one : idiv 0x8000_0000 0xFFFF_FFFF ≡ none
unfolding idiv
lowest_by_minus_one = refl

command_add : command_of (b'a' ∷ b'd' ∷ b'd' ∷ []) ≡ adds
unfolding command_of strcmp
command_add = refl

arithmetic-types_example :
    let typed : Session = record {
      console = idle;
      lines = keys_of (text_of 12) ∷ keys_of (text_of minus_seven) ∷ [];
    } in
    (s' : Console) × (let after : Session = record { console = s'; lines = [] } in
      (add behind frames typed
        ≡ some (print_op b'+' 12 minus_seven ((12 + minus_seven) % 2 ^ 32), after))
      × (subtract behind frames typed
          ≡ some (print_op b'-' 12 minus_seven ((12 + (2 ^ 32 - minus_seven)) % 2 ^ 32), after))
      × (multiply behind frames typed
          ≡ some (print_op b'*' 12 minus_seven (12 * minus_seven % 2 ^ 32), after))
      × (divide behind frames typed
          ≡ (idiv 12 minus_seven >>= λ q. some (print_op b'/' 12 minus_seven q, after))))
    × IsReady s'
unfolding text_of itos push_digits
arithmetic-types_example =
    arithmetic-types behind frames idle 12 minus_seven [] (record { idle = refl; no_shift = refl })
      (omega arith) (omega arith) (omega arith) refl refl (λ m. refl)
