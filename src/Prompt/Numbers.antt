-- ===== src/Prompt/Numbers.antt =====
-- What a user who types two numbers sees.
use mathlib.Core.Path.{subst}
use myreallyoldkernel.Console.{Behind, Console}
use myreallyoldkernel.Console.Editor.{Editor, edits}
use myreallyoldkernel.Console.Fetch.{Fetched}
use myreallyoldkernel.Console.Line.{getstr-edits}
use myreallyoldkernel.Memory.{Memory}
use myreallyoldkernel.Prelude.{
  ℕ, ◌+◌, ◌-◌, ◌*◌, ◌%◌, ◌^◌, ◌≤◌, ◌<◌, ◌≡◌, refl, ap, ◌∙◌, arith, false, some, List, [], ◌∷◌,
  length, ◌>>=◌,
}
use myreallyoldkernel.Prompt.{
  Session, Frames, text_fuel, read_line, getint_from, getint, two_numbers, add, subtract, multiply,
  divide, idiv, print_op,
}
use myreallyoldkernel.Strings.{is_digit, text_of}
use myreallyoldkernel.Strings.Decimal.{TextAt, stoi-itos}
use myreallyoldkernel.Vfs.{Text}
use myreallyoldkernel.Prompt.Keys.{
  keys_of, Decimal, onto, edits-keys_of, keys_of-inside, length-onto, Holds-TextAt, onto-onto,
  text_of-Decimal, Ends,
}

-- A console that has no characters left over and no shift key down.
pub record IsReady (s : Console) : Type 0 where
  pub idle : s.input 0 ≡ 0
  pub no_shift : s.shift_down ≡ 0

-- A line of keys that type a text leaves the text in the caller's array.
read_line-types :
    (behind : Behind) (stack : Memory) (s : Console) (t : Text) (lines : List (List ℕ))
    → IsReady s
    → Decimal t
    → length t < 256
    → Ends stack t
    → (buf : Memory) × (s' : Console) × (read_line behind
          (record { console = s; lines = keys_of t ∷ lines })
          stack
        ≡ some (buf, record { console = s'; lines = lines }))
      × TextAt buf 0 t
      × ((j : ℕ) → length t ≤ j → buf j ≡ stack j)
      × IsReady s'
unfolding read_line
read_line-types behind stack s t lines ready d short ends =
    let (ne, inside, size) = keys_of-inside behind t d in
    let (r, runs, fetched) =
      getstr-edits behind s (keys_of t) stack ready.idle (omega (arith, size)) ne inside in
    let edited =
      ap (λ (k : ℕ). edits behind (record { line = []; shift = k }) (keys_of t)) ready.no_shift
      ∙ edits-keys_of behind [] t d in
    let typed : Fetched (onto t []) 0 stack r.0 r.1 =
      subst (λ (e : Editor). Fetched e.line e.shift stack r.0 r.1) edited fetched in
    let count : length (onto t []) ≡ length t = omega (arith, length-onto t []) in
    let behind_line : is_digit (r.0 (length (onto t []))) ≡ false =
      rw (typed.untouched (length (onto t [])) (omega arith), count) ends in
    (
      r.0,
      r.1,
      rw (runs, read_line) refl,
      subst (TextAt r.0 0) (onto-onto t [])
          (Holds-TextAt r.0 (onto t []) [] typed.chars behind_line),
      λ j h. typed.untouched j (omega (arith, count)),
      record { idle = typed.idle; no_shift = typed.shift_kept },
    )

-- The number whose decimal text is typed is the one that getint returns, and the array is as before
-- behind the text.
getint_from-types :
    (behind : Behind) (stack : Memory) (s : Console) (n : ℕ) (lines : List (List ℕ))
    → IsReady s
    → n < 2 ^ 32
    → Ends stack (text_of n)
    → (buf : Memory) × (s' : Console) × (getint_from behind stack
          (record { console = s; lines = keys_of (text_of n) ∷ lines })
        ≡ some ((n, buf), record { console = s'; lines = lines }))
      × ((j : ℕ) → length (text_of n) ≤ j → buf j ≡ stack j)
      × IsReady s'
unfolding getint_from
getint_from-types behind stack s n lines ready small ends =
    let (d, size) = text_of-Decimal n small in
    let (buf, s', runs, at, kept, ready') =
      read_line-types behind stack s (text_of n) lines ready d (omega (arith, size)) ends in
    let (_, _, value) = stoi-itos n text_fuel buf 0 small (omega arith) at in
    (buf, s', rw (runs, getint_from, value) refl, kept, ready')

-- From a console that is ready, a user answers the two questions of an arithmetic command with the
-- decimal texts of two int32 numbers, the second text not shorter than the first. The byte of the
-- array behind each text is no digit before the command, and the kprintf between the two calls of
-- getint keeps the one behind the second text. Then add prints both, their sum modulo 2 ^ 32, and multiply
-- and subtract the product and the difference; divide prints the quotient, and faults where idiv does.
-- The console is ready again.
pub arithmetic-types :
    (behind : Behind) (frames : Frames) (s : Console) (a b : ℕ) (lines : List (List ℕ))
    → IsReady s
    → a < 2 ^ 32
    → b < 2 ^ 32
    → length (text_of a) ≤ length (text_of b)
    → Ends frames.numbers (text_of a)
    → Ends frames.numbers (text_of b)
    → ((m : Memory) → frames.between m (length (text_of b)) ≡ m (length (text_of b)))
    → let typed : Session = record {
      console = s;
      lines = keys_of (text_of a) ∷ keys_of (text_of b) ∷ lines;
    } in
      (s' : Console) × (let after : Session = record { console = s'; lines = lines } in
        (add behind frames typed ≡ some (print_op b'+' a b ((a + b) % 2 ^ 32), after))
        × (subtract behind frames typed
            ≡ some (print_op b'-' a b ((a + (2 ^ 32 - b)) % 2 ^ 32), after))
        × (multiply behind frames typed ≡ some (print_op b'*' a b (a * b % 2 ^ 32), after))
        × (divide behind frames typed ≡ (idiv a b >>= λ q. some (print_op b'/' a b q, after))))
      × IsReady s'
unfolding add subtract multiply divide two_numbers getint
arithmetic-types behind frames s a b lines ready ha hb longer ea eb keeps =
    let (buf, s1, first, kept, ready1) =
      getint_from-types behind frames.numbers s a (keys_of (text_of b) ∷ lines) ready ha ea in
    let same : frames.between buf (length (text_of b)) ≡ frames.numbers (length (text_of b)) =
      keeps buf ∙ kept (length (text_of b)) longer in
    let ends : Ends (frames.between buf) (text_of b) = rw same eb in
    let (_, s2, second, _, ready2) =
      getint_from-types behind (frames.between buf) s1 b lines ready1 hb ends in
    (
      s2,
      (
        rw (add, two_numbers, first, getint, second) refl,
        rw (subtract, two_numbers, first, getint, second) refl,
        rw (multiply, two_numbers, first, getint, second) refl,
        rw (divide, two_numbers, first, getint, second) refl,
      ),
      ready2,
    )
