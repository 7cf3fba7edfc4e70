-- ===== src/Console/Tests.antt =====
-- Keys typed at the console, and the theorems at them.
use myreallyoldkernel.Console.{Behind, Console, enter, keyboard, keys, request, getstr, key_char}
use myreallyoldkernel.Console.Editor.{edit, edits, Collects}
use myreallyoldkernel.Console.Fetch.{Entered, Fetched}
use myreallyoldkernel.Console.Line.{getstr-edits}
use myreallyoldkernel.Console.Typing.{keyboard-Collects}
use myreallyoldkernel.Memory.{Memory, store8}
use myreallyoldkernel.Prelude.{ℕ, ◌≡◌, refl, arith, some, List, [], ◌∷◌}

abbrev behind : Behind
behind = record { lower = λ _. 0; upper = λ _. 0 }

abbrev idle : Console
idle = record { input = λ _. 0; shift_down = 0; screen = [] }

abbrev buffer : Memory
buffer = λ _. 99

-- "h", "j" taken back, "i" with the shift key held
abbrev typed : List ℕ
typed = 35 ∷ 36 ∷ 0x0E ∷ 0x2a ∷ 23 ∷ 0xaa ∷ []

edits-typed : (edits behind (record { line = []; shift = 0 }) typed).line ≡ b'I' ∷ b'h' ∷ []
unfolding edits edit key_char
edits-typed = refl

-- A backspace on an empty line types a zero.
backspace_types_zero : (edits behind (record { line = []; shift = 0 }) (0x0E ∷ [])).line ≡ b'0' ∷ []
unfolding edits edit key_char
backspace_types_zero = refl

abbrev waiting : Console
waiting = record { input = store8 (λ _. 0) 1 1; shift_down = 0; screen = [] }

waiting-Collects : Collects waiting (record { line = []; shift = 0 })
unfolding store8
waiting-Collects = record { waits = refl; count = refl; chars = tt; shift = refl }

keyboard-Collects_example :
    Collects (keyboard behind waiting 35) (edit behind (record { line = []; shift = 0 }) 35)
keyboard-Collects_example =
    keyboard-Collects behind waiting (record { line = []; shift = 0 }) 35 waiting-Collects
      (omega arith) (omega arith)

-- "h" and a newline
abbrev entered : Console
entered = record {
  input = store8 (store8 (store8 (λ _. 0) 1 2) 2 b'h') 3 10;
  shift_down = 0;
  screen = [];
}

entered-Entered : Entered entered (b'h' ∷ [])
unfolding store8
entered-Entered = record { complete = refl; count = refl; newline = refl; chars = (refl, tt) }

getstr-edits_example :
    let e = edits behind (record { line = []; shift = 0 }) typed in
    (r : Memory × Console) × (getstr
        (keyboard behind (keys behind (request idle) typed) enter)
        buffer
      ≡ some r)
    × Fetched e.line e.shift buffer r.0 r.1
getstr-edits_example =
    getstr-edits behind idle typed buffer refl (omega arith) (omega arith) (omega arith)
