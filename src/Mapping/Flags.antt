-- ===== src/Mapping/Flags.antt =====
-- The masks and flags of a table entry, as arithmetic.
use mathlib.Core.Path.{ap₂}
use myreallyoldkernel.Bits.Digits.{
  bit_and-ones, bit_and-double, bit_or_halves, bit_or-zero_right, bit_or_even, bit_or_odd,
}
use myreallyoldkernel.Mapping.{table_index, entry_address, page_entry}
use myreallyoldkernel.Prelude.{
  ℕ, ◌+◌, ◌*◌, ◌/◌, ◌%◌, ◌^◌, ◌≤◌, ◌<◌, ◌≡◌, ◌∙◌, refl, ap, arith, bit_or,
}

-- The mask keeps all but the low byte.
pub entry_address_lem : (e : ℕ) → e < 2 ^ 32 → entry_address e ≡ e / 256 * 256
entry_address_lem e h = omega (
  arith,
  bit_and-double e 0x7FFF_FF80,
  bit_and-double (e / 2) 0x3FFF_FFC0,
  bit_and-double (e / 2 / 2) 0x1FFF_FFE0,
  bit_and-double (e / 2 / 2 / 2) 0x0FFF_FFF0,
  bit_and-double (e / 2 / 2 / 2 / 2) 0x07FF_FFF8,
  bit_and-double (e / 2 / 2 / 2 / 2 / 2) 0x03FF_FFFC,
  bit_and-double (e / 2 / 2 / 2 / 2 / 2 / 2) 0x01FF_FFFE,
  bit_and-double (e / 2 / 2 / 2 / 2 / 2 / 2 / 2) 0x00FF_FFFF,
  bit_and-ones 24 (e / 2 / 2 / 2 / 2 / 2 / 2 / 2 / 2),
)

pub table_index_lem : (a : ℕ) → table_index a ≡ a / 4096 % 1024
table_index_lem a = omega (arith, bit_and-ones 10 (a / 2 ^ 12))

bit_or_bit : (x b : ℕ) → b ≤ 1 → bit_or (2 * x) b ≡ 2 * x + b
bit_or_bit x b h =
    let e : b / 2 ≡ 0 = omega arith in
    ground (arith, bit_or_even x b, ap (bit_or x) e, bit_or-zero_right x)

pub bit_or_three : (x : ℕ) → bit_or (4 * x) 3 ≡ 4 * x + 3
bit_or_three x =
    let e : 4 * x ≡ 2 * (2 * x) = omega arith in
    rw e (omega (arith, bit_or_even (2 * x) 3, bit_or_bit x 1))

-- The three flags of an entry are added to an aligned address.
pub page_entry_lem :
    (q user writable : ℕ)
    → user ≤ 1
    → writable ≤ 1
    → page_entry (8 * q) user writable ≡ 8 * q + 4 * user + 2 * writable + 1
page_entry_lem q u w hu hw =
    let e1 : bit_or (8 * q) 1 ≡ 2 * (4 * q) + 1 =
      let e : 8 * q ≡ 2 * (4 * q) = omega arith in rw e (bit_or_bit (4 * q) 1 (omega arith)) in
    let e2 : bit_or (2 * (4 * q) + 1) (2 * w) ≡ 2 * (4 * q + w) + 1 =
      let e : 2 * w / 2 ≡ w = omega arith in
      let e' : 4 * q ≡ 2 * (2 * q) = omega arith in
      bit_or_odd (4 * q) (2 * w) ∙ rw (e, e') (omega (arith, bit_or_bit (2 * q) w hw)) in
    let half : bit_or (4 * q + w) (2 * u) ≡ 4 * q + w + 2 * u = omega (
      arith,
      bit_or_halves (4 * q + w) (2 * u),
      ap₂ bit_or (let a : (4 * q + w) / 2 ≡ 2 * q = omega arith in a)
          (let b : 2 * u / 2 ≡ u = omega arith in b),
      bit_or_bit q u hu,
    ) in
    let e3 : bit_or (2 * (4 * q + w) + 1) (4 * u) ≡ 2 * (4 * q + w + 2 * u) + 1 =
      let e : 4 * u / 2 ≡ 2 * u = omega arith in
      bit_or_odd (4 * q + w) (4 * u) ∙ rw (e, half) refl in
    rw (e1, e2, e3) (omega arith)
