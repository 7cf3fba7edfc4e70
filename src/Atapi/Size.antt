-- ===== src/Atapi/Size.antt =====
-- The byte count that atapiRead takes from the drive, described without shifts and masks.
use myreallyoldkernel.Atapi.{Ports, read_size, sign_extended}
use myreallyoldkernel.Bits.Digits.{ones, bit_or-add, bit_or-split, bit_or-ones}
use myreallyoldkernel.Prelude.{
  ℕ, ◌+◌, ◌-◌, ◌*◌, ◌%◌, ◌^◌, ◌<◌, ◌≡◌, refl, ◌∙◌, ap, arith, bit_or, inl, inr, Bool-cases, ltb,
  if◌then◌else◌,
}

-- The count that the registers make up where both bytes are below 0x80; a sign that is extended is seen
-- from that byte on: the low one covers the high one.
abbrev pub byte_count : ℕ → ℕ → ℕ
byte_count low high =
    let signed = if ltb high 0x80 then 0 else 0xFFFF_0000 in
    if ltb low 0x80 then signed + 256 * high + low else 0xFFFF_FF00 + low

join-low : (low x : ℕ) → low < 256 → bit_or low (x * 2 ^ 8) ≡ low + x * 2 ^ 8
join-low low x h = bit_or-add 8 low x (omega arith)

join-high :
    (low x : ℕ)
    → low < 256
    → x < 2 ^ 24
    → bit_or (low + 0xFFFF_FF00) (x * 2 ^ 8) ≡ low + 0xFFFF_FF00
join-high low x h k =
    let e : low + 0xFFFF_FF00 ≡ low + ones 24 * 2 ^ 8 = omega arith in
    rw e (
      bit_or-split 8 low (ones 24) x (omega arith)
      ∙ ap (λ (t : ℕ). low + t * 2 ^ 8) (bit_or-ones 24 x (omega arith)))

-- What the second cast and the shift leave of the high byte.
upper :
    (high : ℕ)
    → high < 256
    → (x : ℕ) × (sign_extended high * 2 ^ 8 % 2 ^ 32 ≡ x * 2 ^ 8)
      × (x < 2 ^ 24)
      × (x * 2 ^ 8 ≡ 256 * high + (if ltb high 0x80 then 0 else 0xFFFF_0000))
upper high h = elim (Bool-cases (ltb high 0x80)) [
  | inl t ↦ (high, rw t (omega arith), omega arith, rw t (omega arith))
  | inr t ↦ (high + (2 ^ 24 - 2 ^ 8), rw t (omega arith), omega arith, rw t (omega arith))
]

module _ {D : Type 0} (ports : Ports D) (d d1 d2 : D) (bus low high : ℕ) where
  pub read_size-byte_count :
      ports.inb d (bus + 4) ≡ (low, d1)
      → ports.inb d1 (bus + 5) ≡ (high, d2)
      → low < 256
      → high < 256
      → read_size ports d bus ≡ (byte_count low high, d2)
  unfolding read_size
  read_size-byte_count at_low at_high hl hh =
      let (x, joined, small, value) = upper high hh in
      elim (Bool-cases (ltb low 0x80)) [
        | inl t ↦
            let e : bit_or low (x * 2 ^ 8)
                ≡ (if ltb high 0x80 then 0 else 0xFFFF_0000) + 256 * high + low =
              join-low low x hl ∙ omega (arith, value) in
            rw (at_low, at_high, joined, t, e) refl
        | inr t ↦
            let e : bit_or (low + 0xFFFF_FF00) (x * 2 ^ 8) ≡ 0xFFFF_FF00 + low =
              join-high low x hl small ∙ omega arith in
            rw (at_low, at_high, joined, t, e) refl
      ]
