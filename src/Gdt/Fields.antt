-- ===== src/Gdt/Fields.antt =====
-- What the processor reads back from a descriptor that gdtSetGate packed.
use myreallyoldkernel.Bits.Digits.{bit_and-ones, bit_and-double, bit_or-add}
use myreallyoldkernel.Gdt.{GdtEntry, gdt_entry, gdt_set_gate}
use myreallyoldkernel.Prelude.{
  ℕ, ◌+◌, ◌*◌, ◌/◌, ◌%◌, ◌^◌, ◌<◌, bit_and, bit_or, ◌≡◌, ◌≢◌, refl, arith, List, get_or, length,
  get_or-set_self, get_or-set_ne,
}

-- The fields of a segment descriptor, as the processor's manual lays them out.
abbrev pub segment_base : GdtEntry → ℕ
segment_base e = e.base_low + 2 ^ 16 * e.base_middle + 2 ^ 24 * e.base_high

abbrev pub segment_limit : GdtEntry → ℕ
segment_limit e = e.limit_low + 2 ^ 16 * (e.limit_high_and_flags % 16)

-- Granularity, default size and two more bits.
abbrev pub segment_flags : GdtEntry → ℕ
segment_flags e = e.limit_high_and_flags / 16

high_digit : (g : ℕ) → bit_and g 0xF0 ≡ g / 16 % 16 * 2 ^ 4
high_digit g = omega (
  arith,
  bit_and-double g 0x78,
  bit_and-double (g / 2) 0x3C,
  bit_and-double (g / 2 / 2) 0x1E,
  bit_and-double (g / 2 / 2 / 2) 0x0F,
  bit_and-ones 4 (g / 2 / 2 / 2 / 2),
)

limit_and_flags : (l g : ℕ) → bit_or (bit_and l 0x0F) (bit_and g 0xF0) ≡ l % 16 + g / 16 % 16 * 16
limit_and_flags l g =
    rw (high_digit g, bit_and-ones 4 l) (bit_or-add 4 (l % 16) (g / 16 % 16) (omega arith))

-- What the processor reads from an entry.
pub record Describes (e : GdtEntry) (base limit access gran : ℕ) : Type 0 where
  pub base_field : segment_base e ≡ base
  pub limit_field : segment_limit e ≡ limit % 2 ^ 20
  pub access_field : e.access ≡ access
  pub flags_field : segment_flags e ≡ gran / 16

pub gdt_entry-Describes :
    (base limit access gran : ℕ)
    → base < 2 ^ 32
    → gran < 256
    → Describes (gdt_entry base limit access gran) base limit access gran
unfolding gdt_entry
gdt_entry-Describes base limit access gran hb hg =
    let flags = limit_and_flags (limit / 2 ^ 16) gran in
    record {
      base_field = omega (
        arith,
        bit_and-ones 16 base,
        bit_and-ones 8 (base / 2 ^ 16),
        bit_and-ones 8 (base / 2 ^ 24),
      );
      limit_field = rw flags (omega (arith, bit_and-ones 16 limit));
      access_field = refl;
      flags_field = rw flags (omega arith);
    }

-- For an index within the table, a 32-bit base and a uint8 of flags, the entry that gdtSetGate
-- writes reads back as the base, the low 20 bits of the limit, the access byte and the high four
-- flag bits, and every other entry stays.
pub gdt_set_gate-Describes :
    (entries : List GdtEntry) (num base limit access gran : ℕ) (default : GdtEntry)
    → num < length entries
    → base < 2 ^ 32
    → gran < 256
    → let after = gdt_set_gate entries num base limit access gran in
      Describes (get_or after num default) base limit access gran
      × ((i : ℕ) → num ≢ i → get_or after i default ≡ get_or entries i default)
unfolding gdt_set_gate
gdt_set_gate-Describes entries num base limit access gran default hn hb hg =
    let e = gdt_entry base limit access gran in
    (
      rw (get_or-set_self entries num e default hn)
          (gdt_entry-Describes base limit access gran hb hg),
      λ i ne. get_or-set_ne entries num i e default ne,
    )
