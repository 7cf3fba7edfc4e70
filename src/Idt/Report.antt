-- ===== src/Idt/Report.antt =====
-- The handlers of interrupts.c that the assembly stubs call: `interrupt`, which reports an exception and
-- stops, and `drive`, which notes the interrupt of a drive.
use myreallyoldkernel.Prelude.{ℕ, Option, none, some, List, [], ◌∷◌, get_elem?}
use myreallyoldkernel.Vfs.{Text}

-- `isr`, the names by the number of the exception.
abbrev exception_names : List Text
exception_names =
    (b'D' ∷ b'i' ∷ b'v' ∷ b'i' ∷ b's' ∷ b'i' ∷ b'o' ∷ b'n' ∷ b' ' ∷ b'b' ∷ b'y' ∷ b' ' ∷ b'z' ∷ b'e'
      ∷ b'r' ∷ b'o' ∷ [])
    ∷ (b'D' ∷ b'e' ∷ b'b' ∷ b'u' ∷ b'g' ∷ [])
    ∷ (b'N' ∷ b'o' ∷ b'n' ∷ b' ' ∷ b'm' ∷ b'a' ∷ b's' ∷ b'k' ∷ b'a' ∷ b'b' ∷ b'l' ∷ b'e' ∷ b' '
        ∷ b'i' ∷ b'n' ∷ b't' ∷ b'e' ∷ b'r' ∷ b'r' ∷ b'u' ∷ b'p' ∷ b't' ∷ [])
    ∷ (b'B' ∷ b'r' ∷ b'e' ∷ b'a' ∷ b'k' ∷ b'p' ∷ b'o' ∷ b'i' ∷ b'n' ∷ b't' ∷ [])
    ∷ (b'I' ∷ b'n' ∷ b't' ∷ b'o' ∷ b' ' ∷ b'D' ∷ b'e' ∷ b'c' ∷ b't' ∷ b'e' ∷ b'd' ∷ b' ' ∷ b'O'
        ∷ b'v' ∷ b'e' ∷ b'r' ∷ b'f' ∷ b'l' ∷ b'o' ∷ b'w' ∷ [])
    ∷ (b'O' ∷ b'u' ∷ b't' ∷ b' ' ∷ b'o' ∷ b'f' ∷ b' ' ∷ b'b' ∷ b'o' ∷ b'u' ∷ b'n' ∷ b'd' ∷ b's'
        ∷ [])
    ∷ (b'I' ∷ b'n' ∷ b'v' ∷ b'a' ∷ b'l' ∷ b'i' ∷ b'd' ∷ b' ' ∷ b'o' ∷ b'p' ∷ b'c' ∷ b'o' ∷ b'd'
        ∷ b'e' ∷ [])
    ∷ (b'N' ∷ b'o' ∷ b' ' ∷ b'c' ∷ b'o' ∷ b'p' ∷ b'r' ∷ b'o' ∷ b'c' ∷ b'e' ∷ b's' ∷ b's' ∷ b'o'
        ∷ b'r' ∷ [])
    ∷ (b'D' ∷ b'o' ∷ b'u' ∷ b'b' ∷ b'l' ∷ b'e' ∷ b' ' ∷ b'f' ∷ b'a' ∷ b'u' ∷ b'l' ∷ b't' ∷ [])
    ∷ (b'C' ∷ b'o' ∷ b'p' ∷ b'r' ∷ b'o' ∷ b'c' ∷ b'e' ∷ b's' ∷ b's' ∷ b'o' ∷ b'r' ∷ b' ' ∷ b's'
        ∷ b'e' ∷ b'g' ∷ b'm' ∷ b'e' ∷ b'n' ∷ b't' ∷ b' ' ∷ b'o' ∷ b'v' ∷ b'e' ∷ b'r' ∷ b'r' ∷ b'u'
        ∷ b'n' ∷ [])
    ∷ (b'B' ∷ b'a' ∷ b'd' ∷ b' ' ∷ b'T' ∷ b'S' ∷ b'S' ∷ [])
    ∷ (b'S' ∷ b'e' ∷ b'g' ∷ b'm' ∷ b'e' ∷ b'n' ∷ b't' ∷ b' ' ∷ b'n' ∷ b'o' ∷ b't' ∷ b' ' ∷ b'p'
        ∷ b'r' ∷ b'e' ∷ b's' ∷ b'e' ∷ b'n' ∷ b't' ∷ [])
    ∷ (b'S' ∷ b't' ∷ b'a' ∷ b'c' ∷ b'k' ∷ b' ' ∷ b'f' ∷ b'a' ∷ b'u' ∷ b'l' ∷ b't' ∷ [])
    ∷ (b'G' ∷ b'e' ∷ b'n' ∷ b'e' ∷ b'r' ∷ b'a' ∷ b'l' ∷ b' ' ∷ b'p' ∷ b'r' ∷ b'o' ∷ b't' ∷ b'e'
        ∷ b'c' ∷ b't' ∷ b'i' ∷ b'o' ∷ b'n' ∷ b' ' ∷ b'f' ∷ b'a' ∷ b'u' ∷ b'l' ∷ b't' ∷ [])
    ∷ (b'P' ∷ b'a' ∷ b'g' ∷ b'e' ∷ b' ' ∷ b'f' ∷ b'a' ∷ b'u' ∷ b'l' ∷ b't' ∷ [])
    ∷ (b'U' ∷ b'n' ∷ b'k' ∷ b'n' ∷ b'o' ∷ b'w' ∷ b'n' ∷ b' ' ∷ b'i' ∷ b'n' ∷ b't' ∷ b'e' ∷ b'r'
        ∷ b'r' ∷ b'r' ∷ b'u' ∷ b'p' ∷ b't' ∷ [])
    ∷ (b'C' ∷ b'o' ∷ b'p' ∷ b'r' ∷ b'o' ∷ b'c' ∷ b'e' ∷ b's' ∷ b's' ∷ b'o' ∷ b'r' ∷ b' ' ∷ b'f'
        ∷ b'a' ∷ b'u' ∷ b'l' ∷ b't' ∷ [])
    ∷ (b'A' ∷ b'l' ∷ b'i' ∷ b'g' ∷ b'n' ∷ b'm' ∷ b'e' ∷ b'n' ∷ b't' ∷ b' ' ∷ b'c' ∷ b'h' ∷ b'e'
        ∷ b'c' ∷ b'k' ∷ [])
    ∷ (b'M' ∷ b'a' ∷ b'c' ∷ b'h' ∷ b'i' ∷ b'n' ∷ b'e' ∷ b' ' ∷ b'c' ∷ b'h' ∷ b'e' ∷ b'c' ∷ b'k'
        ∷ [])
    ∷ []

pub record Report : Type 0 where
  pub name : Text
  pub error_code : ℕ
  pub eip : ℕ
  pub cr2 : ℕ

-- What interrupt prints before its endless loop; a number without a name reads behind the array.
unfoldable pub interrupt : ℕ → ℕ → ℕ → ℕ → Option Report
interrupt number error_code eip cr2 = elim (get_elem? exception_names number) [
  | none ↦ none
  | some name ↦ some (record { name = name; error_code = error_code; eip = eip; cr2 = cr2 })
]

-- `driveIRQ` behind the handler of a drive's interrupt.
abbrev pub drive_irq : ℕ
drive_irq = 1
