-- ===== src/Paging/Search.antt =====
-- The scan of allocPage finds the first free bit of the bitmap.
use native.Mathlib.Decide.{dec_lt}
use myreallyoldkernel.Bits.{bit_test, shift_count}
use myreallyoldkernel.Bits.Digits.{digit, ones, digit-ones}
use myreallyoldkernel.Bits.Laws.{bit_test-digit}
use myreallyoldkernel.Paging.{found, past_end, skips, scan}
use myreallyoldkernel.Prelude.{
  ℕ, zero, suc, ◌+◌, ◌*◌, ◌/◌, ◌%◌, ◌^◌, ◌≤◌, ◌<◌, ◌≡◌, ap, inl, inr, arith, true, List, ◌==◌,
  if◌then◌else◌, get_or, length, Bool-cases, get_elem?-eq-get_or, get_elem?-out,
}

-- The bit that stands for page `p`.
unfoldable pub page_bit : List ℕ → ℕ → ℕ
page_bit bitmap p = digit (get_or bitmap (p / 32) 0) (p % 32)

abbrev pub InMap : List ℕ → ℕ → Type 0
InMap bitmap p = p < 32 * length bitmap

pub record IsFree (bitmap : List ℕ) (p : ℕ) : Type 0 where
  pub in_map : InMap bitmap p
  pub clear : page_bit bitmap p ≡ 0

-- `p` is the first free page from `bit` on.
pub record IsFirstFree (bitmap : List ℕ) (bit p : ℕ) : Type 0 where
  pub free : IsFree bitmap p
  pub from : bit ≤ p
  pub taken : (q : ℕ) → bit ≤ q → q < p → page_bit bitmap q ≡ 1

-- The test at a bit, with the shift count cut to a byte, reads the page's own bit.
test-page_bit :
    (bitmap : List ℕ) (bit : ℕ) → bit_test (get_or bitmap (bit / 32) 0) bit ≡ page_bit bitmap bit
unfolding page_bit
test-page_bit bitmap bit =
    let e : shift_count bit ≡ bit % 32 = omega arith in
    rw (← e) (bit_test-digit (get_or bitmap (bit / 32) 0) bit)

-- A word that is skipped has all its pages taken.
skips_taken :
    (bitmap : List ℕ) (bit q : ℕ)
    → skips bit (get_or bitmap (bit / 32) 0) ≡ true
    → bit ≤ q
    → q < bit + 32
    → page_bit bitmap q ≡ 1
unfolding page_bit
skips_taken bitmap bit q s lo hi =
    let aligned : bit % 32 ≡ 0 = ground arith in
    let full : get_or bitmap (bit / 32) 0 ≡ ones 32 = ground arith in
    let same : q / 32 ≡ bit / 32 = omega arith in
    rw (same, full) (digit-ones 32 (q % 32) (omega arith))

-- One round of the scan inside the array.
scan-suc :
    (fuel : ℕ) (bitmap : List ℕ) (bit : ℕ)
    → InMap bitmap bit
    → length bitmap ≤ 1024
    → scan (suc fuel) bitmap bit ≡ (
        if skips bit (get_or bitmap (bit / 32) 0)
        then scan fuel bitmap (bit + 32)
        else if page_bit bitmap bit == 0
        then found bit
        else scan fuel bitmap (bit + 1))
unfolding scan
scan-suc fuel bitmap bit h small =
    let far : (bit + 32) % 2 ^ 32 ≡ bit + 32 = omega arith in
    let near : (bit + 1) % 2 ^ 32 ≡ bit + 1 = omega arith in
    ground (arith, get_elem?-eq-get_or bitmap (bit / 32) 0, test-page_bit bitmap bit, far, near)

scan-out :
    (fuel : ℕ) (bitmap : List ℕ) (bit : ℕ)
    → 32 * length bitmap ≤ bit
    → scan (suc fuel) bitmap bit ≡ past_end
unfolding scan
scan-out fuel bitmap bit h = ground (arith, get_elem?-out bitmap (bit / 32))

IsFirstFree-later :
    {bitmap : List ℕ} {bit p : ℕ} (bit' : ℕ)
    → IsFirstFree bitmap bit p
    → bit ≤ bit'
    → bit' ≤ p
    → IsFirstFree bitmap bit' p
IsFirstFree-later bit' f le le' = record {
  free = f.free;
  from = le';
  taken = λ q lo hi. f.taken q (omega arith) hi;
}

-- With fuel for the bits up to the first free one, the scan stops there.
pub scan-found :
    (fuel : ℕ) (bitmap : List ℕ) (bit p : ℕ)
    → length bitmap ≤ 1024
    → IsFirstFree bitmap bit p
    → p < fuel + bit
    → scan fuel bitmap bit ≡ found p
scan-found zero bitmap bit p small f enough = absurd (omega (arith, f.from))
scan-found (suc fuel) bitmap bit p small f enough =
    let inside : InMap bitmap bit = omega (arith, f.from, f.free.in_map) in
    rw (scan-suc fuel bitmap bit inside small)
      (elim (Bool-cases (skips bit (get_or bitmap (bit / 32) 0))) [
        | inl s ↦
            let past : bit + 32 ≤ p =
              ground (arith, skips_taken bitmap bit p s, f.from, f.free.clear) in
            rw s (
              scan-found fuel bitmap (bit + 32) p small
                (IsFirstFree-later (bit + 32) f (omega arith) past) (omega arith))
        | inr s ↦ rw s (elim (Bool-cases (page_bit bitmap bit == 0)) [
          | inl z ↦ let here : bit ≡ p = ground (arith, f.taken bit, f.from) in rw z (ap found here)
          | inr z ↦
              let past : bit + 1 ≤ p = ground (
                arith,
                f.from,
                f.free.clear,
                ap (λ (t : ℕ). page_bit bitmap t) {x = bit} {y = p},
              ) in
              rw z (
                scan-found fuel bitmap (bit + 1) p small
                  (IsFirstFree-later (bit + 1) f (omega arith) past) (omega arith))
        ])
      ])

-- Where every page is taken the scan runs off the array, and fuel for its bits is enough.
pub scan-past_end :
    (fuel : ℕ) (bitmap : List ℕ) (bit : ℕ)
    → length bitmap ≤ 1024
    → ((q : ℕ) → InMap bitmap q → page_bit bitmap q ≡ 1)
    → 32 * length bitmap < fuel + bit
    → bit ≤ 32 * length bitmap
    → scan fuel bitmap bit ≡ past_end
scan-past_end zero bitmap bit small full enough low = absurd (omega arith)
scan-past_end (suc fuel) bitmap bit small full enough low = elim (dec_lt bit (32 * length bitmap)) [
  | no out ↦ scan-out fuel bitmap bit (omega arith)
  | yes inside ↦
      rw (scan-suc fuel bitmap bit inside small, full bit inside)
        (elim (Bool-cases (skips bit (get_or bitmap (bit / 32) 0))) [
          | inl s ↦
              let aligned : bit % 32 ≡ 0 = ground arith in
              rw s (scan-past_end fuel bitmap (bit + 32) small full (omega arith) (omega arith))
          | inr s ↦
              rw s (scan-past_end fuel bitmap (bit + 1) small full (omega arith) (omega arith))
        ])
]
