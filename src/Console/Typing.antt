-- ===== src/Console/Typing.antt =====
-- The keyboard interrupt follows the line editor, key by key.
use mathlib.Core.Path.{subst}
use myreallyoldkernel.Console.{
  Behind, Console, enter, backspace_key, key_char, press, keyboard, keys,
}
use myreallyoldkernel.Console.Editor.{Editor, erase_or, edit, edits, Holds, Collects}
use myreallyoldkernel.Memory.{Memory, store8}
use myreallyoldkernel.Prelude.{
  ℕ, ◌+◌, ◌%◌, ◌≤◌, ◌<◌, ◌≡◌, ◌≢◌, sym, ◌⊎◌, inl, inr, ◌∙◌, refl, arith, true, false, ◌||◌, List,
  [], ◌∷◌, ltb, ◌==◌, if◌then◌else◌, length, Bool-cases,
}

-- A write outside the block leaves the line.
pub Holds-store8 :
    (base : ℕ) (m : Memory) (line : List ℕ) (a v : ℕ)
    → (a < base) ⊎ (base + length line ≤ a)
    → Holds base m line
    → Holds base (store8 m a v) line
unfolding store8
Holds-store8 base m [] a v out h = tt
Holds-store8 base m (c ∷ line) a v out h =
    (ground arith, Holds-store8 base m line a v (omega arith) h.1)

-- What a key that is saved does to the buffer.
abbrev pub typed_input : Memory → ℕ → ℕ → Memory
typed_input m n c = store8 (store8 m (n + 2) c) 0 ((n + 1) % 256)

count-saved : (m : Memory) (n c : ℕ) → store8 m (n + 2) c 0 ≡ m 0
unfolding store8
count-saved m n c = ground arith

-- An ordinary key, and the key that completes the line.
pub press-typed :
    (behind : Behind) (s : Console) (inch n k : ℕ)
    → s.input 1 ≡ 1
    → s.input 0 ≡ n
    → s.shift_down ≡ k
    → (press behind s inch).input ≡ (
        if inch == enter
        then store8 (store8 (typed_input s.input n (key_char behind k inch)) 1 2) 0 0
        else typed_input s.input n (key_char behind k inch))
unfolding press
press-typed behind s inch n k waits count shift =
    rw (waits, shift, count, count-saved s.input n (key_char behind k inch), count) refl

shift-press :
    (behind : Behind) (s : Console) (inch : ℕ) → (press behind s inch).shift_down ≡ s.shift_down
unfolding press
shift-press behind s inch = refl

pub Holds-typed :
    (m : Memory) (line : List ℕ) (c : ℕ)
    → Holds 2 m line
    → Holds 2 (typed_input m (length line) c) (c ∷ line)
Holds-typed m line c h = (
  unfold store8 in ground arith,
  Holds-store8 2 (store8 m (length line + 2) c) line 0 ((length line + 1) % 256) (inl (omega arith))
      (Holds-store8 2 m line (length line + 2) c (inr (omega arith)) h),
)

-- An ordinary key: the character joins the line.
press-Collects :
    (behind : Behind) (s : Console) (e : Editor) (inch : ℕ)
    → Collects s e
    → length e.line < 255
    → inch ≢ enter
    → Collects (press behind s inch) (record e { line = key_char behind e.shift inch ∷ e.line })
press-Collects behind s e inch v room ne =
    let c = key_char behind e.shift inch in
    let same : (press behind s inch).input ≡ typed_input s.input (length e.line) c =
      ground (arith, press-typed behind s inch (length e.line) e.shift v.waits v.count v.shift) in
    record {
      waits = rw same (unfold store8 in ground (arith, v.waits));
      count = rw same (unfold store8 in ground arith);
      chars = subst (λ m. Holds 2 m (c ∷ e.line)) (sym same) (Holds-typed s.input e.line c v.chars);
      shift = shift-press behind s inch ∙ v.shift;
    }

backspace-Collects :
    (behind : Behind) (s : Console) (shift : ℕ) (line : List ℕ)
    → Collects s (record { line = line; shift = shift })
    → length line < 255
    → Collects
        (keyboard behind s backspace_key)
        (edit behind (record { line = line; shift = shift }) backspace_key)
unfolding keyboard edit
backspace-Collects behind s shift [] v room =
    let test : (s.input 0 == 0) ≡ true = ground (arith, v.count) in
    rw test (
      press-Collects behind s (record { line = []; shift = shift }) backspace_key v room
        (omega arith))
backspace-Collects behind s shift (c ∷ line) v room =
    let test : (s.input 0 == 0) ≡ false = ground (arith, v.count) in
    let less : (s.input 0 + 255) % 256 ≡ length line = omega (arith, v.count) in
    rw test (record {
      waits = unfold store8 in ground (arith, v.waits);
      count = unfold store8 in ground (arith, less);
      chars = Holds-store8 2 s.input line 0 ((s.input 0 + 255) % 256) (inl (omega arith)) v.chars.1;
      shift = v.shift;
    })

other-Collects :
    (behind : Behind) (s : Console) (e : Editor) (inch : ℕ)
    → Collects s e
    → length e.line < 255
    → inch ≢ enter
    → (inch == backspace_key) ≡ false
    → Collects (keyboard behind s inch) (edit behind e inch)
unfolding keyboard edit
other-Collects behind s e inch v room ne c = elim (Bool-cases (inch == 0x2a || inch == 0x36)) [
  | inl a ↦ rw a (record { waits = v.waits; count = v.count; chars = v.chars; shift = refl })
  | inr a ↦ rw a (elim (Bool-cases (inch == 0x2a + 0x80 || inch == 0x36 + 0x80)) [
    | inl b ↦ rw b (record { waits = v.waits; count = v.count; chars = v.chars; shift = refl })
    | inr b ↦
        rw (b, c)
          (elim (Bool-cases (ltb inch 0x58)) [
            | inl d ↦ rw d (press-Collects behind s e inch v room ne)
            | inr d ↦ rw d v
          ])
  ])
]

-- While a line of fewer than 255 characters is collected, the interrupt for any key but enter does
-- to the buffer what the editor does to its line: backspace, shift and releases included.
pub keyboard-Collects :
    (behind : Behind) (s : Console) (e : Editor) (inch : ℕ)
    → Collects s e
    → length e.line < 255
    → inch ≢ enter
    → Collects (keyboard behind s inch) (edit behind e inch)
keyboard-Collects behind s e inch v room ne = elim (Bool-cases (inch == backspace_key)) [
  | inl c ↦
      let same : inch ≡ backspace_key = ground arith in
      subst (λ k. Collects (keyboard behind s k) (edit behind e k)) (sym same)
        (backspace-Collects behind s e.shift e.line v room)
  | inr c ↦ other-Collects behind s e inch v room ne c
]

length-erase_or : (line : List ℕ) (c : ℕ) → length (erase_or line c) ≤ length line + 1
unfolding erase_or
length-erase_or [] c = omega arith
length-erase_or (x ∷ line) c = omega arith

length-edit :
    (behind : Behind) (e : Editor) (inch : ℕ) → length (edit behind e inch).line ≤ length e.line + 1
unfolding edit
length-edit behind e inch = ground (arith, length-erase_or e.line (key_char behind e.shift inch))

-- No key of the list is enter.
abbrev pub NoEnter : List ℕ → Type 0
NoEnter [] = Unit {0}
NoEnter (inch ∷ rest) = (inch ≢ enter) × NoEnter rest

pub keys-Collects :
    (behind : Behind) (s : Console) (e : Editor) (typed : List ℕ)
    → Collects s e
    → length e.line + length typed < 256
    → NoEnter typed
    → Collects (keys behind s typed) (edits behind e typed)
unfolding keys edits
keys-Collects behind s e [] v room ne = v
keys-Collects behind s e (inch ∷ typed) v room ne =
    keys-Collects behind (keyboard behind s inch) (edit behind e inch) typed
      (keyboard-Collects behind s e inch v (omega arith) ne.0)
      (omega (arith, length-edit behind e inch)) ne.1

pub length-edits :
    (behind : Behind) (e : Editor) (typed : List ℕ)
    → length (edits behind e typed).line ≤ length e.line + length typed
unfolding edits
length-edits behind e [] = omega arith
length-edits behind e (inch ∷ typed) =
    omega (arith, length-edits behind (edit behind e inch) typed, length-edit behind e inch)
