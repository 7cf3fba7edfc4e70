-- ===== src/Bits/Digits.antt =====
-- The binary digits of `bit_and`, `bit_or` and of the masks that the kernel builds, at every width.
use Prim.Native.Nat.{max, digits, bit_and-bitwise, bit_or-bitwise}
use native.Mathlib.Nat.{
  mul_assoc, mul_comm, pow-suc, one-le-pow, mod-lt, div-add-mod, mod-eq_of_lt,
  mul-add-mod_self_left,
}
use myreallyoldkernel.Prelude.{
  ℕ, zero, suc, ◌+◌, ◌-◌, ◌*◌, ◌/◌, ◌%◌, ◌^◌, ◌≤◌, ◌<◌, min, bit_and, bit_or, ◌≡◌, refl, sym, ◌∙◌,
  ap, ◌≢◌, arith,
}

-- Once there is fuel for the first number, more of it changes nothing.
enough :
    (z : ℕ → ℕ) (f : ℕ → ℕ → ℕ) {n m a : ℕ} (b : ℕ)
    → a ≤ n
    → n ≤ m
    → digits z f m a b ≡ digits z f n a b
enough z f {n = zero} {m = zero} {a = zero} b h k = refl
enough z f {n = zero} {m = suc m} {a = zero} b h k = refl
enough z f {n = zero} {m = m} {a = suc a} b h k = absurd (omega arith)
enough z f {n = suc n} {m = zero} {a = a} b h k = absurd (omega arith)
enough z f {n = suc n} {m = suc m} {a = zero} b h k = refl
enough z f {n = suc n} {m = suc m} {a = suc a} b h k =
    omega (arith, enough z f {n = n} {m = m} {a = suc a / 2} (b / 2) (omega arith) (omega arith))

-- One equation for the lowest digit of each operation.
pub bit_and_halves : (a b : ℕ) → bit_and a b ≡ 2 * bit_and (a / 2) (b / 2) + min (a % 2) (b % 2)
bit_and_halves zero b = omega (arith, bit_and-bitwise 0 b, bit_and-bitwise 0 (b / 2))
bit_and_halves (suc a) b = omega (
  arith,
  bit_and-bitwise (suc a) b,
  bit_and-bitwise (suc a / 2) (b / 2),
  enough (λ _. 0) min {n = suc a / 2} {m = a} {a = suc a / 2} (b / 2) (omega arith) (omega arith),
)

pub bit_or_halves : (a b : ℕ) → bit_or a b ≡ 2 * bit_or (a / 2) (b / 2) + max (a % 2) (b % 2)
bit_or_halves zero b = omega (arith, bit_or-bitwise 0 b, bit_or-bitwise 0 (b / 2))
bit_or_halves (suc a) b = omega (
  arith,
  bit_or-bitwise (suc a) b,
  bit_or-bitwise (suc a / 2) (b / 2),
  enough (λ c. c) max {n = suc a / 2} {m = a} {a = suc a / 2} (b / 2) (omega arith) (omega arith),
)

-- Digit `k` of `a`, the lowest first.
unfoldable pub digit : ℕ → ℕ → ℕ
digit a zero = a % 2
digit a (suc k) = digit (a / 2) k

-- `w` ones
abbrev pub ones : ℕ → ℕ
ones zero = 0
ones (suc w) = 2 * ones w + 1

pub digit-le-one : (a k : ℕ) → digit a k ≤ 1
unfolding digit
digit-le-one a zero = omega arith
digit-le-one a (suc k) = digit-le-one (a / 2) k

pub digit-bit_and : (a b k : ℕ) → digit (bit_and a b) k ≡ min (digit a k) (digit b k)
unfolding digit
digit-bit_and a b zero = omega (arith, bit_and_halves a b)
digit-bit_and a b (suc k) =
    let e : bit_and a b / 2 ≡ bit_and (a / 2) (b / 2) = omega (arith, bit_and_halves a b) in
    rw e (digit-bit_and (a / 2) (b / 2) k)

pub digit-bit_or : (a b k : ℕ) → digit (bit_or a b) k ≡ max (digit a k) (digit b k)
unfolding digit
digit-bit_or a b zero = omega (arith, bit_or_halves a b)
digit-bit_or a b (suc k) =
    let e : bit_or a b / 2 ≡ bit_or (a / 2) (b / 2) = omega (arith, bit_or_halves a b) in
    rw e (digit-bit_or (a / 2) (b / 2) k)

pub digit-zero : (k : ℕ) → digit 0 k ≡ 0
unfolding digit
digit-zero zero = refl
digit-zero (suc k) = digit-zero k

pub digit-ones : (w k : ℕ) → k < w → digit (ones w) k ≡ 1
unfolding digit
digit-ones zero k h = absurd (omega arith)
digit-ones (suc w) zero h = omega arith
digit-ones (suc w) (suc k) h =
    let e : (2 * ones w + 1) / 2 ≡ ones w = omega arith in rw e (digit-ones w k (omega arith))

-- The complement on `w` digits.
pub digit-complement : (w a k : ℕ) → a ≤ ones w → k < w → digit (ones w - a) k ≡ 1 - digit a k
unfolding digit
digit-complement zero a k fits h = absurd (omega arith)
digit-complement (suc w) a zero fits h = omega arith
digit-complement (suc w) a (suc k) fits h =
    let e : (2 * ones w + 1 - a) / 2 ≡ ones w - a / 2 = omega arith in
    rw e (digit-complement w (a / 2) k (omega arith) (omega arith))

-- Neither operation leaves the width of its arguments.
pub bit_or-le-ones : (w a b : ℕ) → a ≤ ones w → b ≤ ones w → bit_or a b ≤ ones w
bit_or-le-ones zero zero b p q = omega (arith, bit_or-bitwise 0 b)
bit_or-le-ones zero (suc a) b p q = absurd (omega arith)
bit_or-le-ones (suc w) a b p q =
    omega (arith, bit_or_halves a b, bit_or-le-ones w (a / 2) (b / 2) (omega arith) (omega arith))

pub bit_and-le-ones : (w a b : ℕ) → a ≤ ones w → bit_and a b ≤ ones w
bit_and-le-ones zero zero b p = omega (arith, bit_and-bitwise 0 b)
bit_and-le-ones zero (suc a) b p = absurd (omega arith)
bit_and-le-ones (suc w) a b p =
    omega (arith, bit_and_halves a b, bit_and-le-ones w (a / 2) (b / 2) (omega arith))

-- A number that fits `w` digits and has a zero among them is not all ones.
pub lt_ones_of_digit : (w a k : ℕ) → k < w → digit a k ≡ 0 → a ≢ ones w
lt_ones_of_digit w a k h z e = omega (arith, digit-ones w k h, ap (λ (t : ℕ). digit t k) e)

-- Digits decide equality.
pub eq_of_digits :
    (w a b : ℕ) → a ≤ ones w → b ≤ ones w → ((k : ℕ) → k < w → digit a k ≡ digit b k) → a ≡ b
unfolding digit
eq_of_digits zero a b p q h = omega arith
eq_of_digits (suc w) a b p q h =
    let rest : a / 2 ≡ b / 2 =
      eq_of_digits w (a / 2) (b / 2) (omega arith) (omega arith) (λ k l. h (suc k) (omega arith)) in
    let low : a % 2 ≡ b % 2 = h 0 (omega arith) in omega arith

digits_nothing : (n a : ℕ) → digits (λ _. 0) min n a 0 ≡ 0
digits_nothing zero a = refl
digits_nothing (suc n) zero = refl
digits_nothing (suc n) (suc a) = omega (arith, digits_nothing n (suc a / 2))

pub bit_and-zero : (a : ℕ) → bit_and a 0 ≡ 0
bit_and-zero a = omega (arith, bit_and-bitwise a 0, digits_nothing a a)

pub bit_and-one : (a : ℕ) → bit_and a 1 ≡ a % 2
bit_and-one a = omega (arith, bit_and_halves a 1, bit_and-zero (a / 2))

-- A mask of low ones is a remainder.
mod_of : (n m k r : ℕ) → n ≡ m * k + r → r < m → n % m ≡ r
mod_of n m k r e h = rw e (mul-add-mod_self_left m k r ∙ mod-eq_of_lt h)

mod-halves : (a w : ℕ) → 2 * (a / 2 % 2 ^ w) + a % 2 ≡ a % 2 ^ suc w
mod-halves a w =
    let m = 2 ^ w in
    let k = a / 2 / m in
    let split : 2 ^ suc w * k ≡ 2 * (m * k) =
      rw (pow-suc 2 w) (omega (arith, mul_assoc m 2 k, mul_comm m 2, mul_assoc 2 m k)) in
    sym (
      mod_of a (2 ^ suc w) k (2 * (a / 2 % m) + a % 2) (omega (arith, split, div-add-mod (a / 2) m))
        (omega (arith, pow-suc 2 w, mod-lt (a / 2) (one-le-pow w 2 (omega arith)))))

pub bit_and-ones : (w a : ℕ) → bit_and a (ones w) ≡ a % 2 ^ w
bit_and-ones zero a = omega (arith, bit_and-zero a)
bit_and-ones (suc w) a =
    let e : (2 * ones w + 1) / 2 ≡ ones w = omega arith in
    ground (arith, bit_and_halves a (2 * ones w + 1), e, bit_and-ones w (a / 2), mod-halves a w)

-- A mask with a zero at its low end reads the number above its lowest digit.
pub bit_and-double : (a m : ℕ) → bit_and a (2 * m) ≡ 2 * bit_and (a / 2) m
bit_and-double a m =
    let e : 2 * m / 2 ≡ m = omega arith in ground (arith, bit_and_halves a (2 * m), e)

pub bit_or-zero_left : (b : ℕ) → bit_or 0 b ≡ b
bit_or-zero_left b = omega (arith, bit_or-bitwise 0 b)

-- `|` of a number below `2 ^ k` and a multiple of `2 ^ k` adds them.
pub bit_or-add : (k a b : ℕ) → a ≤ ones k → bit_or a (b * 2 ^ k) ≡ a + b * 2 ^ k
bit_or-add zero a b h =
    let e : a ≡ 0 = omega arith in rw e (omega (arith, bit_or-zero_left (b * 2 ^ 0)))
bit_or-add (suc k) a b h =
    let e : b * 2 ^ suc k ≡ 2 * (b * 2 ^ k) = omega (arith, ap (λ (t : ℕ). b * t) (pow-suc 2 k)) in
    let half : 2 * (b * 2 ^ k) / 2 ≡ b * 2 ^ k = omega arith in
    ground (arith, e, half, bit_or_halves a (b * 2 ^ suc k), bit_or-add k (a / 2) b (omega arith))

bit_or-zero_within : (n a : ℕ) → a ≤ n → bit_or a 0 ≡ a
bit_or-zero_within n zero h = refl
bit_or-zero_within zero (suc a) h = absurd (omega arith)
bit_or-zero_within (suc n) (suc a) h =
    omega (arith, bit_or_halves (suc a) 0, bit_or-zero_within n (suc a / 2) (omega arith))

pub bit_or-zero_right : (a : ℕ) → bit_or a 0 ≡ a
bit_or-zero_right a = bit_or-zero_within a a (omega arith)

-- One digit at a time, for a left side whose lowest digit is known.
pub bit_or_even : (x b : ℕ) → bit_or (2 * x) b ≡ 2 * bit_or x (b / 2) + b % 2
bit_or_even x b = let e : 2 * x / 2 ≡ x = omega arith in ground (arith, bit_or_halves (2 * x) b, e)

pub bit_or_odd : (x b : ℕ) → bit_or (2 * x + 1) b ≡ 2 * bit_or x (b / 2) + 1
bit_or_odd x b =
    let e : (2 * x + 1) / 2 ≡ x = omega arith in ground (arith, bit_or_halves (2 * x + 1) b, e)

-- `|` of two numbers joins their parts below and from `2 ^ k` on, where the second has none below.
pub bit_or-split :
    (k a c b : ℕ) → a ≤ ones k → bit_or (a + c * 2 ^ k) (b * 2 ^ k) ≡ a + bit_or c b * 2 ^ k
bit_or-split zero a c b h =
    let e : a ≡ 0 = omega arith in
    let at : c * 2 ^ 0 ≡ c = omega arith in
    let bt : b * 2 ^ 0 ≡ b = omega arith in
    let z : 0 + c ≡ c = omega arith in rw (e, at, bt, z) (omega arith)
bit_or-split (suc k) a c b h =
    let eb : b * 2 ^ suc k ≡ 2 * (b * 2 ^ k) = omega (arith, ap (λ (t : ℕ). b * t) (pow-suc 2 k)) in
    let ec : c * 2 ^ suc k ≡ 2 * (c * 2 ^ k) = omega (arith, ap (λ (t : ℕ). c * t) (pow-suc 2 k)) in
    let er : bit_or c b * 2 ^ suc k ≡ 2 * (bit_or c b * 2 ^ k) =
      omega (arith, ap (λ (t : ℕ). bit_or c b * t) (pow-suc 2 k)) in
    let half : 2 * (b * 2 ^ k) / 2 ≡ b * 2 ^ k = omega arith in
    let upper : (a + c * 2 ^ suc k) / 2 ≡ a / 2 + c * 2 ^ k = omega (arith, ec) in
    let lower : (a + c * 2 ^ suc k) % 2 ≡ a % 2 = omega (arith, ec) in
    ground (
      arith,
      eb,
      er,
      half,
      upper,
      lower,
      bit_or_halves (a + c * 2 ^ suc k) (b * 2 ^ suc k),
      bit_or-split k (a / 2) c b (omega arith),
    )

pub bit_or-ones : (w b : ℕ) → b ≤ ones w → bit_or (ones w) b ≡ ones w
bit_or-ones zero b h = omega (arith, bit_or-zero_left b)
bit_or-ones (suc w) b h =
    let e : (2 * ones w + 1) / 2 ≡ ones w = omega arith in
    ground (arith, e, bit_or_halves (2 * ones w + 1) b, bit_or-ones w (b / 2) (omega arith))
