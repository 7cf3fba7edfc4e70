-- ===== src/Strings/Decimal.antt =====
-- stoi reads what itos writes.
use mathlib.Core.Path.{subst}
use native.Mathlib.Decide.{ℕ_discrete}
use native.Mathlib.Nat.{pow-suc}
use myreallyoldkernel.Memory.{Memory}
use myreallyoldkernel.Prelude.{
  ℕ, zero, suc, ◌+◌, ◌-◌, ◌*◌, ◌/◌, ◌%◌, ◌^◌, ◌≤◌, ◌<◌, ◌≡◌, refl, sym, ap, ◌∙◌, arith, true, false,
  ◌⊎◌, inl, inr, some, [], ◌∷◌, ltb, ◌==◌, length, Bool-cases,
}
use myreallyoldkernel.Strings.{
  neg32, is_digit, minus, convert_to_int, stoi, push_digits, digit_fuel, itos, text_of,
}
use myreallyoldkernel.Vfs.{Text}

-- The text stands in memory from an address on, with a byte behind it that is no digit.
abbrev pub TextAt : Memory → ℕ → Text → Type 0
TextAt m a [] = is_digit (m a) ≡ false
TextAt m a (c ∷ t) = (m a ≡ c) × TextAt m (a + 1) t

abbrev pub Digits : Text → Type 0
Digits [] = Unit
Digits (c ∷ t) = (is_digit c ≡ true) × Digits t

-- The number that a text of digits continues.
abbrev pub value_from : ℕ → Text → ℕ
value_from n [] = n
value_from n (c ∷ t) = value_from ((n * 10 + (c - b'0')) % 2 ^ 32) t

convert_to_int-Digits :
    (fuel : ℕ) (m : Memory) (a n : ℕ) (t : Text)
    → Digits t
    → TextAt m a t
    → length t < fuel
    → convert_to_int fuel m a n ≡ some (value_from n t)
unfolding convert_to_int
convert_to_int-Digits zero m a n t d at h = absurd (omega arith)
convert_to_int-Digits (suc fuel) m a n [] d at h = rw at refl
convert_to_int-Digits (suc fuel) m a n (c ∷ t) d at h =
    rw (at.0, d.0)
      (convert_to_int-Digits fuel m (a + 1) ((n * 10 + (c - b'0')) % 2 ^ 32) t d.1 at.1
        (omega arith))

-- What the division loop pushes: digits that continue to the number.
pub record Pushed (n : ℕ) (pushed t : Text) (most : ℕ) : Type 0 where
  pub digits : Digits t
  pub value : value_from 0 t ≡ value_from n pushed
  pub long : 0 < length t
  pub short : length t ≤ most + length pushed

-- The digits of `n`, of which the last is already there.
push_more :
    (fuel n : ℕ) (pushed t : Text)
    → n < 2 ^ 32
    → Pushed (n / 10) ((n % 10 + b'0') ∷ pushed) t fuel
    → Pushed n pushed t (suc fuel)
push_more fuel n pushed t small p = record {
  digits = p.digits;
  value =
      p.value
      ∙ ap (λ (v : ℕ). value_from v pushed)
          (let e : (n / 10 * 10 + (n % 10 + b'0' - b'0')) % 2 ^ 32 ≡ n = omega arith in e);
  long = p.long;
  short = omega (arith, p.short);
}

push_last :
    (n : ℕ) (pushed : Text) (most : ℕ)
    → n / 10 ≡ 0
    → Digits pushed
    → Pushed n pushed ((n % 10 + b'0') ∷ pushed) (suc most)
push_last n pushed most e d = record {
  digits = (ground arith, d);
  value =
      ap (λ (v : ℕ). value_from v pushed)
        (let same : (0 * 10 + (n % 10 + b'0' - b'0')) % 2 ^ 32 ≡ n = omega arith in same);
  long = omega arith;
  short = omega arith;
}

push_digits-Pushed :
    (fuel n : ℕ) (pushed : Text)
    → n < 10 ^ suc fuel
    → n < 2 ^ 32
    → Digits pushed
    → (t : Text) × (push_digits (suc fuel) n pushed ≡ some t) × Pushed n pushed t (suc fuel)
unfolding push_digits
push_digits-Pushed zero n pushed h small d =
    let e : n / 10 ≡ 0 = omega arith in
    ((n % 10 + b'0') ∷ pushed, rw e refl, push_last n pushed 0 e d)
push_digits-Pushed (suc fuel) n pushed h small d = elim (ℕ_discrete (n / 10) 0) [
  | yes e ↦ ((n % 10 + b'0') ∷ pushed, rw e refl, push_last n pushed (suc fuel) e d)
  | no ne ↦
      let (t, runs, p) =
        push_digits-Pushed fuel (n / 10) ((n % 10 + b'0') ∷ pushed)
          (omega (arith, pow-suc 10 (suc fuel))) (omega arith) (ground arith, d) in
      let other : (n / 10 == 0) ≡ false = ground (arith, ne) in
      (t, rw other runs, push_more (suc fuel) n pushed t small p)
]

push_all :
    (n : ℕ)
    → n < 2 ^ 32
    → (t : Text) × (push_digits digit_fuel n [] ≡ some t) × Pushed n [] t digit_fuel
push_all n small = push_digits-Pushed 9 n [] (omega arith) small tt

-- A text of digits does not start with a minus sign.
not_minus :
    (m : Memory) (a : ℕ) (t : Text)
    → Digits t
    → TextAt m a t
    → 0 < length t
    → (m a == minus) ≡ false
not_minus m a [] d at h = absurd (omega arith)
not_minus m a (c ∷ t) d at h = ground (arith, d.0, at.0)

pub text_of-some : (n : ℕ) (t : Text) → itos n ≡ some t → text_of n ≡ t
unfolding text_of
text_of-some n t e = rw (e, text_of) refl

-- What the text of a number is: its digits, or a minus sign and the digits of its negative.
pub text_of-cases :
    (n : ℕ)
    → n < 2 ^ 32
    → ((t : Text) × (itos n ≡ some t) × Pushed n [] t digit_fuel)
      ⊎ ((t : Text) × (itos n ≡ some (minus ∷ t))
          × Pushed (neg32 n) [] t digit_fuel
          × (neg32 (neg32 n) ≡ n))
unfolding itos
text_of-cases n small = elim (Bool-cases (ltb n (2 ^ 31))) [
  | inl pos ↦ let (t, runs, p) = push_all n small in inl (t, rw (pos, runs) refl, p)
  | inr neg ↦
      let (t, runs, p) = push_all (neg32 n) (omega arith) in
      inr (t, rw (neg, runs) refl, p, ground arith)
]

-- itos answers with at most eleven characters for a 32-bit number, and where they stand in memory,
-- with a byte behind them that is no digit, stoi reads the number back, sign included.
pub stoi-itos :
    (n fuel : ℕ) (m : Memory) (a : ℕ)
    → n < 2 ^ 32
    → 11 < fuel
    → TextAt m a (text_of n)
    → (itos n ≡ some (text_of n)) × (length (text_of n) ≤ 11) × (stoi fuel m a ≡ some n)
unfolding stoi
stoi-itos n fuel m a small enough at = elim (text_of-cases n small) [
  | inl (t, made, p) ↦
      let is_text = text_of-some n t made in
      let at_t = subst (TextAt m a) is_text at in
      let size : length t ≤ 10 = omega (arith, p.short) in
      let read = convert_to_int-Digits fuel m a 0 t p.digits at_t (omega arith) ∙ ap some p.value in
      (
        made ∙ ap some (sym is_text),
        rw is_text (omega arith),
        rw (not_minus m a t p.digits at_t p.long) read,
      )
  | inr (t, made, p, back) ↦
      let is_text = text_of-some n (minus ∷ t) made in
      let at_t = subst (TextAt m a) is_text at in
      let size : length t ≤ 10 = omega (arith, p.short) in
      let here : (m a == minus) ≡ true = ground (arith, at_t.0) in
      let magnitude =
        convert_to_int-Digits fuel m (a + 1) 0 t p.digits at_t.1 (omega arith) ∙ ap some p.value in
      (made ∙ ap some (sym is_text), rw is_text (omega arith), rw (here, magnitude) (ap some back))
]
