-- ===== src/Prompt/Keys.antt =====
-- The keys that type a decimal number.
use myreallyoldkernel.Console.{Behind, key_char, entry, sc_lower}
use myreallyoldkernel.Console.Editor.{edit, edits, Holds}
use myreallyoldkernel.Console.Typing.{NoEnter}
use myreallyoldkernel.Console.Line.{AllInTables, every_index, every_index-at}
use myreallyoldkernel.Memory.{Memory}
use myreallyoldkernel.Prelude.{
  ℕ, suc, ◌+◌, ◌-◌, ◌^◌, ◌≤◌, ◌<◌, ◌≡◌, ◌≢◌, refl, ap, ◌∙◌, arith, Bool, true, false, ◌||◌, ◌⊎◌,
  inl, inr, List, [], ◌∷◌, ◌==◌, if◌then◌else◌, length, get_or, get_elem?-eq-get_or,
}
use myreallyoldkernel.Strings.{is_digit, minus, text_of}
use myreallyoldkernel.Strings.Decimal.{TextAt, Digits, text_of-cases, text_of-some}
use myreallyoldkernel.Vfs.{Text}

-- The key of a character of a decimal number: `1` to `9` have the scan codes 2 to 10, `0` 11, and the
-- minus sign 12.
abbrev pub key_of : ℕ → ℕ
key_of c = if c == minus then 12 else if c == b'0' then 11 else c - 47

abbrev pub keys_of : Text → List ℕ
keys_of [] = []
keys_of (c ∷ t) = key_of c ∷ keys_of t

-- The characters of a decimal number.
abbrev pub Decimal : Text → Type 0
Decimal [] = Unit
Decimal (c ∷ t) = ((is_digit c ≡ true) ⊎ (c ≡ minus)) × Decimal t

abbrev pub onto : Text → Text → Text
onto [] line = line
onto (c ∷ t) line = onto t (c ∷ line)

key_types : ℕ → Bool
key_types d = d == 1 || d == 2 || get_or sc_lower (key_of (45 + d)) 0 == 45 + d

key_table : every_index key_types 13 ≡ true
unfolding every_index key_types
key_table = refl

-- The key of each of the characters types it while no shift key is down.
key_char-key_of :
    (behind : Behind) (c : ℕ)
    → (is_digit c ≡ true) ⊎ (c ≡ minus)
    → (key_of c ≤ 12) × (key_char behind 0 (key_of c) ≡ c)
unfolding key_char key_types
key_char-key_of behind c h =
    let low : key_of c ≤ 12 = ground arith in
    let range : (45 ≤ c) × (c < 58) × (c ≢ 46) × (c ≢ 47) = ground arith in
    let back : 45 + (c - 45) ≡ c = omega (arith, range.0) in
    let listed = every_index-at key_types 13 (c - 45) (omega (arith, range.1, range.0)) key_table in
    let in_table = rw back at listed in
    let found = get_elem?-eq-get_or sc_lower (key_of c) 0 (omega (arith, low)) in
    let value : get_or sc_lower (key_of c) 0 ≡ c = ground (arith, in_table) in
    (low, rw (entry, found, value) refl)

edit-low :
    (behind : Behind) (line : Text) (inch : ℕ)
    → inch ≤ 12
    → edit behind (record { line = line; shift = 0 }) inch
      ≡ record { line = key_char behind 0 inch ∷ line; shift = 0 }
unfolding edit
edit-low behind line inch h = ground arith

edit-key_of :
    (behind : Behind) (line : Text) (c : ℕ)
    → (is_digit c ≡ true) ⊎ (c ≡ minus)
    → edit behind (record { line = line; shift = 0 }) (key_of c)
      ≡ record { line = c ∷ line; shift = 0 }
unfolding edit
edit-key_of behind line c h =
    let (low, types) = key_char-key_of behind c h in
    edit-low behind line (key_of c) low
    ∙ ap (λ (d : ℕ). record { line = d ∷ line; shift = 0 }) types

pub edits-keys_of :
    (behind : Behind) (line t : Text)
    → Decimal t
    → edits behind (record { line = line; shift = 0 }) (keys_of t)
      ≡ record { line = onto t line; shift = 0 }
unfolding edits
edits-keys_of behind line [] d = refl
edits-keys_of behind line (c ∷ t) d =
    rw (edits, edit-key_of behind line c d.0) (edits-keys_of behind (c ∷ line) t d.1)

pub keys_of-inside :
    (behind : Behind) (t : Text)
    → Decimal t
    → NoEnter (keys_of t) × AllInTables (keys_of t) × (length (keys_of t) ≡ length t)
keys_of-inside behind [] d = (tt, tt, refl)
keys_of-inside behind (c ∷ t) d =
    let (low, _) = key_char-key_of behind c d.0 in
    let (ne, inside, size) = keys_of-inside behind t d.1 in
    (
      (λ e. absurd (omega (arith, low)), ne),
      (inl (omega (arith, low)), inside),
      omega (arith, size),
    )

pub length-onto : (t line : Text) → length (onto t line) ≡ length t + length line
length-onto [] line = omega arith
length-onto (c ∷ t) line = omega (arith, length-onto t (c ∷ line))

add-one : (n : ℕ) → n + 1 ≡ suc n
add-one n = omega arith

-- A line that is held last character first stands in memory as the text that was typed.
pub Holds-TextAt :
    (m : Memory) (line t : Text)
    → Holds 0 m line
    → TextAt m (length line) t
    → TextAt m 0 (onto line t)
Holds-TextAt m [] t h at = at
Holds-TextAt m (c ∷ line) t h at = Holds-TextAt m line (c ∷ t) h.1 (
  ap m (let e : length line ≡ 0 + length line = omega arith in e) ∙ h.0,
  rw (add-one (length line)) at,
)

pub onto-onto : (t line : Text) → onto (onto t line) [] ≡ onto line t
onto-onto [] line = refl
onto-onto (c ∷ t) line = onto-onto t (c ∷ line)

Digits-Decimal : (t : Text) → Digits t → Decimal t
Digits-Decimal [] d = tt
Digits-Decimal (c ∷ t) d = (inl d.0, Digits-Decimal t d.1)

pub text_of-Decimal : (n : ℕ) → n < 2 ^ 32 → Decimal (text_of n) × (length (text_of n) ≤ 11)
text_of-Decimal n small = elim (text_of-cases n small) [
  | inl (t, made, p) ↦
      rw (text_of-some n t made) (Digits-Decimal t p.digits, omega (arith, p.short))
  | inr (t, made, p, _) ↦
      rw (text_of-some n (minus ∷ t) made)
        ((inr refl, Digits-Decimal t p.digits), omega (arith, p.short))
]

-- A text that fits the stack's bytes: the byte behind it is no digit.
abbrev pub Ends : Memory → Text → Type 0
Ends stack t = is_digit (stack (length t)) ≡ false
