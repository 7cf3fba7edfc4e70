-- ===== src/Console/Line.antt =====
-- The line that getstr returns for the keys of one request.
use myreallyoldkernel.Console.Fetch.{Fetched, Plain, enter-Entered, getstr-Fetched}
use mathlib.Core.Path.{subst}
use myreallyoldkernel.Console.{
  Behind, Console, enter, sc_lower, sc_upper, key_char, press, keyboard, keys, request, getstr,
}
use myreallyoldkernel.Console.Editor.{Editor, erase_or, edit, edits, Collects}
use myreallyoldkernel.Console.Typing.{NoEnter, keys-Collects, length-edits}
use myreallyoldkernel.Memory.{Memory, store8}
use myreallyoldkernel.Prelude.{
  ℕ, zero, suc, ◌≤◌, ◌<◌, ◌≡◌, ◌≢◌, sym, ◌⊎◌, inl, inr, ◌∙◌, refl, arith, Bool, true, ◌&&◌, ◌||◌,
  some, List, [], ◌∷◌, not, ◌==◌, length, get_or, get_elem?-eq-get_or,
}

-- Every index of a table passes a test.
unfoldable pub every_index : (ℕ → Bool) → ℕ → Bool
every_index test zero = true
every_index test (suc size) = every_index test size && test size

pub every_index-at :
    (test : ℕ → Bool) (size i : ℕ) → i < size → every_index test size ≡ true → test i ≡ true
unfolding every_index
every_index-at test zero i inside pass = absurd (omega arith)
every_index-at test (suc size) i inside pass = ground (arith, every_index-at test size i)

-- A key within both tables, or one that the handler passes over.
abbrev pub InTables : ℕ → Type 0
InTables inch = (inch < 58) ⊎ (0x58 ≤ inch)

abbrev pub AllInTables : List ℕ → Type 0
AllInTables [] = Unit {0}
AllInTables (inch ∷ rest) = InTables inch × AllInTables rest

abbrev only_enter : List ℕ → ℕ → Bool
only_enter table i = i == enter || not (get_or table i 0 == 10)

tables_check : (every_index (only_enter sc_lower) 58 && every_index (only_enter sc_upper) 58) ≡ true
unfolding every_index
tables_check = refl

key_char-plain :
    (behind : Behind) (shift inch : ℕ) → inch < 58 → inch ≢ enter → key_char behind shift inch ≢ 10
unfolding key_char
key_char-plain behind shift inch h ne = ground (
  arith,
  tables_check,
  every_index-at (only_enter sc_lower) 58 inch,
  every_index-at (only_enter sc_upper) 58 inch,
  get_elem?-eq-get_or sc_lower inch 0 h,
  get_elem?-eq-get_or sc_upper inch 0 h,
)

-- Enter leaves the shift keys alone.
enter-shift : (behind : Behind) (s : Console) → (keyboard behind s enter).shift_down ≡ s.shift_down
unfolding keyboard press
enter-shift behind s = ground arith

pub request-Collects :
    (s : Console)
    → s.input 0 ≡ 0
    → Collects (request s) (record { line = []; shift = s.shift_down })
unfolding request
request-Collects s idle = record {
  waits = unfold store8 in ground arith;
  count = unfold store8 in ground arith;
  chars = tt;
  shift = refl;
}

erase_or-Plain : (line : List ℕ) (c : ℕ) → Plain line → c ≢ 10 → Plain (erase_or line c)
unfolding erase_or
erase_or-Plain [] c p ne = (ne, tt)
erase_or-Plain (d ∷ line) c p ne = p.1

line-edit :
    (behind : Behind) (e : Editor) (inch : ℕ)
    → let c = key_char behind e.shift inch in
      let line = (edit behind e inch).line in
      (line ≡ e.line) ⊎ ((inch < 0x58) × ((line ≡ erase_or e.line c) ⊎ (line ≡ c ∷ e.line)))
unfolding edit
line-edit behind e inch = ground arith

edit-Plain :
    (behind : Behind) (e : Editor) (inch : ℕ)
    → Plain e.line
    → InTables inch
    → inch ≢ enter
    → Plain (edit behind e inch).line
edit-Plain behind e inch p inside ne = elim (line-edit behind e inch) [
  | inl same ↦ subst Plain (sym same) p
  | inr (low, made) ↦
      let plain = key_char-plain behind e.shift inch (omega arith) ne in
      elim made [
        | inl same ↦
            subst Plain (sym same) (erase_or-Plain e.line (key_char behind e.shift inch) p plain)
        | inr same ↦ subst Plain (sym same) (plain, p)
      ]
]

edits-Plain :
    (behind : Behind) (e : Editor) (typed : List ℕ)
    → Plain e.line
    → AllInTables typed
    → NoEnter typed
    → Plain (edits behind e typed).line
unfolding edits
edits-Plain behind e [] p inside ne = p
edits-Plain behind e (inch ∷ typed) p inside ne =
    edits-Plain behind (edit behind e inch) typed (edit-Plain behind e inch p inside.0 ne.0)
      inside.1 ne.1

-- From an idle console, a caller asks for a line, fewer than 256 keys other than enter come in,
-- pressed keys within the tables, and then enter: getstr returns the line that the editor makes of
-- those keys, with backspace and shift taken into account, and writes nothing behind it; the console is idle again and has the editor's shift state.
pub getstr-edits :
    (behind : Behind) (s : Console) (typed : List ℕ) (buf : Memory)
    → s.input 0 ≡ 0
    → length typed < 256
    → NoEnter typed
    → AllInTables typed
    → let e = edits behind (record { line = []; shift = s.shift_down }) typed in
      (r : Memory × Console) × (getstr (keyboard behind (keys behind (request s) typed) enter) buf
        ≡ some r)
      × Fetched e.line e.shift buf r.0 r.1
getstr-edits behind s typed buf idle short ne inside =
    let e0 : Editor = record { line = []; shift = s.shift_down } in
    let e = edits behind e0 typed in
    let start = request-Collects s idle in
    let collected = keys-Collects behind (request s) e0 typed start (omega arith) ne in
    let few : length e.line < 256 = omega (arith, length-edits behind e0 typed) in
    let entered = keyboard behind (keys behind (request s) typed) enter in
    let (r, runs, fetched) =
      getstr-Fetched entered e.line buf
        (enter-Entered behind (keys behind (request s) typed) e collected few)
        (edits-Plain behind e0 typed tt inside ne) few in
    let shift = enter-shift behind (keys behind (request s) typed) ∙ collected.shift in
    (r, runs, subst (λ (k : ℕ). Fetched e.line k buf r.0 r.1) shift fetched)
