-- ===== src/Console/Editor.antt =====
-- A line editor over lists: what a user who types expects of the console.
use myreallyoldkernel.Console.{Behind, Console, backspace_key, key_char}
use myreallyoldkernel.Memory.{Memory}
use myreallyoldkernel.Prelude.{ℕ, ◌+◌, ◌≡◌, ◌||◌, List, [], ◌∷◌, ltb, ◌==◌, if◌then◌else◌, length}

-- The line, its last character first, and the state of the shift keys.
pub record Editor : Type 0 where
  pub line : List ℕ
  pub shift : ℕ

-- The backspace key removes a character, if there is one.
unfoldable pub erase_or : List ℕ → ℕ → List ℕ
erase_or [] c = c ∷ []
erase_or (_ ∷ line) c = line

unfoldable pub edit : Behind → Editor → ℕ → Editor
unfolding erase_or
edit behind e inch =
    if inch == 0x2a || inch == 0x36
    then record e { shift = 1 }
    else if inch == 0x2a + 0x80 || inch == 0x36 + 0x80
    then record e { shift = 0 }
    else if inch == backspace_key
    then record e { line = erase_or e.line (key_char behind e.shift inch) }
    else if ltb inch 0x58
    then record e { line = key_char behind e.shift inch ∷ e.line }
    else e

unfoldable pub edits : Behind → Editor → List ℕ → Editor
edits behind e [] = e
edits behind e (inch ∷ rest) = edits behind (edit behind e inch) rest

-- `line`, last character first, stands in memory from `base` on.
abbrev pub Holds : ℕ → Memory → List ℕ → Type 0
Holds base m [] = Unit {0}
Holds base m (c ∷ line) = (m (base + length line) ≡ c) × Holds base m line

-- The console collects the line of the editor.
pub record Collects (s : Console) (e : Editor) : Type 0 where
  pub waits : s.input 1 ≡ 1
  pub count : s.input 0 ≡ length e.line
  pub chars : Holds 2 s.input e.line
  pub shift : s.shift_down ≡ e.shift
