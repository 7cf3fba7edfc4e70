-- ===== src/Gdt.antt =====
-- The global descriptor table of gdt.c.
pub mod Fields
pub mod Flat
pub mod Tests
use myreallyoldkernel.Paging.{Heap, kmalloc}
use myreallyoldkernel.Prelude.{
  ℕ, ◌-◌, ◌*◌, ◌/◌, ◌^◌, bit_and, bit_or, Option, none, some, List, set,
}

-- `gdtEntry_t`
pub record GdtEntry : Type 0 where
  pub limit_low : ℕ
  pub base_low : ℕ
  pub base_middle : ℕ
  pub access : ℕ
  pub limit_high_and_flags : ℕ
  pub base_high : ℕ

-- The entry that gdtSetGate leaves: `limitHighAndFlags` is written first with the high digit of the
-- limit, and the flags are or-ed in.
unfoldable pub gdt_entry : ℕ → ℕ → ℕ → ℕ → GdtEntry
gdt_entry base limit access gran = record {
  limit_low = bit_and limit 0xFFFF;
  base_low = bit_and base 0xFFFF;
  base_middle = bit_and (base / 2 ^ 16) 0xFF;
  access = access;
  limit_high_and_flags = bit_or (bit_and (limit / 2 ^ 16) 0x0F) (bit_and gran 0xF0);
  base_high = bit_and (base / 2 ^ 24) 0xFF;
}

unfoldable pub gdt_set_gate : List GdtEntry → ℕ → ℕ → ℕ → ℕ → ℕ → List GdtEntry
unfolding gdt_entry
gdt_set_gate entries num base limit access gran = set entries num (gdt_entry base limit access gran)

-- The fields of `tss_t` that initGDT writes.
pub record Tss : Type 0 where
  pub address : ℕ
  pub iopb : ℕ
  pub ss0 : ℕ
  pub esp0 : ℕ

-- `sizeof (tss_t)`: 26 uint32 fields
abbrev pub tss_size : ℕ
tss_size = 104

-- What initGDT leaves behind: the table, `ptr.limit`, the task state segment, and the heap that
-- holds it. `esp` is the stack pointer that the call finds.
pub record GdtState : Type 0 where
  pub entries : List GdtEntry
  pub limit : ℕ
  pub tss : Tss
  pub heap : Heap

unfoldable pub init_gdt : List GdtEntry → Heap → ℕ → Option GdtState
init_gdt entries h esp =
    let null = gdt_set_gate entries 0 0 0 0 0 in
    let code = gdt_set_gate null 1 0 0xFFFF_FFFF 0x9A 0xCF in
    let flat = gdt_set_gate code 2 0 0xFFFF_FFFF 0x92 0xCF in
    elim (kmalloc h tss_size) [
      | none ↦ none
      | some (address, h') ↦ some (record {
        entries = gdt_set_gate flat 3 address (tss_size - 1) 0x89 0x40;
        limit = 8 * 4 - 1;
        tss = record { address = address; iopb = tss_size; ss0 = 0x10; esp0 = esp };
        heap = h';
      })
    ]
