-- ===== src/Console/Fetch.antt =====
-- The copy that getstr makes of a complete line.
use mathlib.Core.Path.{subst}
use native.Mathlib.Decide.{dec_lt, ℕ_discrete}
use native.Mathlib.Nat.{add_comm, zero-add}
use myreallyoldkernel.Console.{
  Behind, Console, enter, key_char, press, keyboard, copy_line, line_fuel, getstr_within, getstr,
}
use myreallyoldkernel.Console.Editor.{Editor, Holds, Collects}
use myreallyoldkernel.Console.Typing.{typed_input, press-typed, Holds-typed, Holds-store8}
use myreallyoldkernel.Memory.{Memory, store8}
use myreallyoldkernel.Prelude.{
  ℕ, zero, suc, ◌+◌, ◌-◌, ◌≤◌, ◌<◌, ◌≡◌, ◌≢◌, sym, inl, ◌∙◌, refl, arith, true, false, ◌&&◌, some,
  List, [], ◌∷◌, ltb, leb, ap, ◌==◌, if◌then◌else◌, length,
}

-- A complete line: enter stored a newline behind it.
pub record Entered (s : Console) (line : List ℕ) : Type 0 where
  pub complete : s.input 1 ≡ 2
  pub count : s.input 0 ≡ 0
  pub newline : s.input (2 + length line) ≡ 10
  pub chars : Holds 2 s.input line

enter_char : (behind : Behind) (shift : ℕ) → key_char behind shift enter ≡ 10
unfolding key_char
enter_char behind shift = ground arith

pub enter-Entered :
    (behind : Behind) (s : Console) (e : Editor)
    → Collects s e
    → length e.line < 256
    → Entered (keyboard behind s enter) e.line
unfolding keyboard
enter-Entered behind s e v room =
    let typed = typed_input s.input (length e.line) (key_char behind e.shift enter) in
    let same : (press behind s enter).input ≡ store8 (store8 typed 1 2) 0 0 =
      press-typed behind s enter (length e.line) e.shift v.waits v.count v.shift in
    let held : Holds 2 (store8 (store8 typed 1 2) 0 0) (key_char behind e.shift enter ∷ e.line) =
      Holds-store8 2 (store8 typed 1 2) (key_char behind e.shift enter ∷ e.line) 0 0
        (inl (omega arith))
        (Holds-store8 2 typed (key_char behind e.shift enter ∷ e.line) 1 2 (inl (omega arith))
          (Holds-typed s.input e.line (key_char behind e.shift enter) v.chars)) in
    record {
      complete = rw same (unfold store8 in ground arith);
      count = rw same (unfold store8 in ground arith);
      newline = rw same (held.0 ∙ enter_char behind e.shift);
      chars = subst (λ m. Holds 2 m e.line) (sym same) held.1;
    }

-- The copy runs to the first newline.
copy_line-stops :
    (fuel : ℕ) (input buf : Memory) (i end : ℕ)
    → 2 ≤ i
    → i ≤ end
    → end < fuel + i
    → ((j : ℕ) → j < end → i ≤ j → input j ≢ 10)
    → input end ≡ 10
    → (buf' : Memory) × (copy_line fuel input i buf ≡ some (end, buf'))
      × ((j : ℕ) → buf' j ≡ (if leb i (j + 2) && ltb (j + 2) end then input (j + 2) else buf j))
unfolding copy_line
copy_line-stops zero input buf i end lo le fuel plain nl = absurd (omega arith)
copy_line-stops (suc fuel) input buf i end lo le enough plain nl = elim (dec_lt i end) [
  | no last ↦
      let here : i ≡ end = omega arith in
      let stop : (input i == 10) ≡ true = ground (arith, ap input here) in
      (buf, rw stop (ap (λ (k : ℕ). some (k, buf)) here), λ j. ground arith)
  | yes more ↦
      let goes : (input i == 10) ≡ false = ground (arith, plain i) in
      let (buf', runs, copied) =
        copy_line-stops fuel input (store8 buf (i - 2) (input i)) (i + 1) end (omega arith)
          (omega arith) (omega arith) (λ j hi lo'. plain j hi (omega arith)) nl in
      (buf', rw goes runs, λ j. copied_step fuel input buf i j end (buf' j) lo more (copied j))
]
  where
    copied_step :
        (f : ℕ) (m b : Memory) (k j e v : ℕ)
        → 2 ≤ k
        → k < e
        → v ≡ (if leb (k + 1) (j + 2) && ltb (j + 2) e then m (j + 2) else store8 b (k - 2) (m k) j)
        → v ≡ (if leb k (j + 2) && ltb (j + 2) e then m (j + 2) else b j)
    copied_step f m b k j e v lo' more' h =
        unfold store8 in ground (arith, h, λ (same : k ≡ j + 2). ap m same)

-- Every character of the line differs from the newline.
abbrev pub Plain : List ℕ → Type 0
Plain [] = Unit {0}
Plain (c ∷ line) = (c ≢ 10) × Plain line

Holds-Plain :
    (m : Memory) (line : List ℕ) (j : ℕ)
    → Holds 2 m line
    → Plain line
    → j < 2 + length line
    → 2 ≤ j
    → m j ≢ 10
Holds-Plain m [] j h p hi lo = absurd (omega arith)
Holds-Plain m (c ∷ line) j h p hi lo = elim (ℕ_discrete j (2 + length line)) [
  | yes e ↦ rw (e, h.0) p.0
  | no n ↦ Holds-Plain m line j h.1 p.1 (omega arith) lo
]

Holds-copied :
    (m buf : Memory) (line : List ℕ)
    → ((j : ℕ) → j < length line → buf j ≡ m (j + 2))
    → Holds 2 m line
    → Holds 0 buf line
Holds-copied m buf [] copied h = tt
Holds-copied m buf (c ∷ line) copied h = (
  ground (
    arith,
    copied (length line),
    ap m (add_comm 2 (length line)),
    ap buf (zero-add (length line)),
    h.0,
  ),
  Holds-copied m buf line (λ j l. copied j (omega arith)) h.1,
)

-- What a finished call of getstr leaves: the line in the caller's buffer with nothing written
-- behind it, a zero in place of the newline in the input page, and the count of characters at 0.
pub record Fetched (line : List ℕ) (shift : ℕ) (buf buf' : Memory) (s' : Console) : Type 0 where
  pub chars : Holds 0 buf' line
  pub untouched : (j : ℕ) → length line ≤ j → buf' j ≡ buf j
  pub ended : s'.input (2 + length line) ≡ 0
  pub idle : s'.input 0 ≡ 0
  pub shift_kept : s'.shift_down ≡ shift

getstr_within-Fetched :
    (fuel : ℕ) (s : Console) (line : List ℕ) (buf : Memory)
    → Entered s line
    → Plain line
    → length line < fuel
    → (r : Memory × Console) × (getstr_within fuel s buf ≡ some r)
      × Fetched line s.shift_down buf r.0 r.1
unfolding getstr_within
getstr_within-Fetched fuel s line buf v plain short =
    let (buf', runs, copied) =
      copy_line-stops fuel s.input buf 2 (2 + length line) (omega arith) (omega arith) (omega arith)
        (λ j hi lo. Holds-Plain s.input line j v.chars plain hi lo) v.newline in
    let done : (s.input 1 == 2) ≡ true = ground (arith, v.complete) in
    (
      (buf', record s { input = store8 s.input (2 + length line) 0 }),
      rw (done, runs, getstr_within) refl,
      record {
        chars = Holds-copied s.input buf' line (λ j l. ground (arith, copied j)) v.chars;
        untouched = λ j l. ground (arith, copied j);
        ended = unfold store8 in ground arith;
        idle = unfold store8 in ground (arith, v.count);
        shift_kept = refl;
      },
    )

-- Once a line of fewer than 256 characters, none of them a newline, is complete, getstr copies it
-- to its buffer and writes no byte of the buffer behind the line, so no terminator: the zero goes
-- to the input page. The console is idle again.
pub getstr-Fetched :
    (s : Console) (line : List ℕ) (buf : Memory)
    → Entered s line
    → Plain line
    → length line < 256
    → (r : Memory × Console) × (getstr s buf ≡ some r) × Fetched line s.shift_down buf r.0 r.1
unfolding getstr
getstr-Fetched s line buf v plain short =
    getstr_within-Fetched line_fuel s line buf v plain (omega arith)
