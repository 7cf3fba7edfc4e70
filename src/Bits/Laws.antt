-- ===== src/Bits/Laws.antt =====
-- bitSet, bitClear and bitTest of paging.c on one bit and on the others.
use myreallyoldkernel.Bits.{one_shl, shr, not32, shift_count, bit_set, bit_clear, bit_test}
use myreallyoldkernel.Bits.Digits.{
  digit, ones, digit-le-one, digit-bit_and, digit-bit_or, digit-zero, digit-complement,
  bit_or-le-ones, bit_and-le-ones, bit_and-one,
}
use myreallyoldkernel.Prelude.{
  ℕ, zero, suc, ◌*◌, ◌/◌, ◌%◌, ◌≤◌, ◌<◌, ◌≡◌, refl, arith, ◌==◌, if◌then◌else◌,
}

digit-shr : (a k : ℕ) → shr a k % 2 ≡ digit a k
unfolding shr digit
digit-shr a zero = refl
digit-shr a (suc k) = digit-shr (a / 2) k

digit-one_shl : (k j : ℕ) → digit (one_shl k) j ≡ (if k == j then 1 else 0)
unfolding one_shl digit
digit-one_shl zero zero = refl
digit-one_shl zero (suc j) = ground (arith, digit-zero j)
digit-one_shl (suc k) zero = ground arith
digit-one_shl (suc k) (suc j) =
    let e : 2 * one_shl k / 2 ≡ one_shl k = omega arith in rw e (ground (arith, digit-one_shl k j))

one_shl-le-ones : (w k : ℕ) → k < w → one_shl k ≤ ones w
unfolding one_shl
one_shl-le-ones zero k h = absurd (omega arith)
one_shl-le-ones (suc w) zero h = omega arith
one_shl-le-ones (suc w) (suc k) h = omega (arith, one_shl-le-ones w k (omega arith))

-- bitTest reads the binary digit that the reduced count names.
pub bit_test-digit : (t b : ℕ) → bit_test t b ≡ digit t (shift_count b)
unfolding bit_test
bit_test-digit t b = omega (arith, bit_and-one (shr t (shift_count b)), digit-shr t (shift_count b))

pub digit-bit_set :
    (t b k : ℕ) → digit (bit_set t b) k ≡ (if shift_count b == k then 1 else digit t k)
unfolding bit_set
digit-bit_set t b k = ground (
  arith,
  digit-bit_or t (one_shl (shift_count b)) k,
  digit-one_shl (shift_count b) k,
  digit-le-one t k,
)

pub digit-bit_clear :
    (t b k : ℕ) → k < 32 → digit (bit_clear t b) k ≡ (if shift_count b == k then 0 else digit t k)
unfolding bit_clear
digit-bit_clear t b k h = ground (
  arith,
  digit-bit_and t (not32 (one_shl (shift_count b))) k,
  digit-complement 32 (one_shl (shift_count b)) k,
  one_shl-le-ones 32 (shift_count b),
  digit-one_shl (shift_count b) k,
  digit-le-one t k,
)

pub bit_set-le : (t b : ℕ) → t ≤ ones 32 → bit_set t b ≤ ones 32
unfolding bit_set
bit_set-le t b h =
    bit_or-le-ones 32 t (one_shl (shift_count b)) h
      (one_shl-le-ones 32 (shift_count b) (omega arith))

pub bit_clear-le : (t b : ℕ) → t ≤ ones 32 → bit_clear t b ≤ ones 32
unfolding bit_clear
bit_clear-le t b h = bit_and-le-ones 32 t (not32 (one_shl (shift_count b))) h

-- For bits and counts below 32, bitTest after bitSet answers 1 at the bit that was set, and at any
-- other bit what it answered before.
pub bit_test-bit_set :
    (t b c : ℕ) → b < 32 → c < 32 → bit_test (bit_set t b) c ≡ (if b == c then 1 else bit_test t c)
bit_test-bit_set t b c hb hc =
    ground
      (arith, bit_test-digit (bit_set t b) c, bit_test-digit t c, digit-bit_set t b (shift_count c))

-- For bits and counts below 32, bitTest after bitClear answers 0 at the bit that was cleared, and
-- at any other bit what it answered before.
pub bit_test-bit_clear :
    (t b c : ℕ)
    → b < 32
    → c < 32
    → bit_test (bit_clear t b) c ≡ (if b == c then 0 else bit_test t c)
bit_test-bit_clear t b c hb hc = ground (
  arith,
  bit_test-digit (bit_clear t b) c,
  bit_test-digit t c,
  digit-bit_clear t b (shift_count c),
)
