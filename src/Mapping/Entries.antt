-- ===== src/Mapping/Entries.antt =====
-- What the three writes of mapPage leave in memory.
use myreallyoldkernel.Mapping.{slot, directory_index, table_index, page_entry, enter_page}
use myreallyoldkernel.Memory.{Memory, load32, store32}
use myreallyoldkernel.Memory.Laws.{load32-store32_self, load32-store32_ne}
use myreallyoldkernel.Prelude.{
  ℕ, ◌+◌, ◌*◌, ◌/◌, ◌%◌, ◌^◌, ◌≤◌, ◌<◌, ◌≡◌, ◌⊎◌, inl, inr, ◌∙◌, refl, arith, bit_or,
}
use myreallyoldkernel.Mapping.Flags.{table_index_lem, bit_or_three, page_entry_lem}

-- Two pages that share no byte.
abbrev pub Apart : ℕ → ℕ → Type 0
Apart a b = (a + 4096 ≤ b) ⊎ (b + 4096 ≤ a)

pub record IsPage (a : ℕ) : Type 0 where
  pub aligned : a % 4096 ≡ 0
  pub fits : a + 4096 ≤ 2 ^ 32

-- The arguments of a call, with `table` the page table that it writes.
pub record Call (dir table physical virtual user writable : ℕ) : Type 0 where
  pub directory : IsPage dir
  pub page_table : IsPage table
  pub distinct : Apart dir table
  pub frame : IsPage physical
  pub address : virtual < 2 ^ 32
  pub user_bit : user ≤ 1
  pub writable_bit : writable ≤ 1

module _ (m : Memory) (dir table physical virtual user writable : ℕ)
    (c : Call dir table physical virtual user writable) where
  abbrev pub after : Memory
  after = enter_page m dir table physical virtual user writable

  abbrev pub directory_slot : ℕ
  directory_slot = dir + 4 * (virtual / 2 ^ 22)

  abbrev pub table_slot : ℕ
  table_slot = table + 4 * (virtual / 4096 % 1024)

  pub slots :
      (slot dir (directory_index virtual) ≡ directory_slot)
      × (slot table (table_index virtual) ≡ table_slot)
  slots = omega (arith, c.directory.fits, c.page_table.fits, c.address, table_index_lem virtual)

  pub entry_value : page_entry physical user writable ≡ physical + 4 * user + 2 * writable + 1
  entry_value =
      let e : physical ≡ 8 * (physical / 8) = omega (arith, c.frame.aligned) in
      rw e (page_entry_lem (physical / 8) user writable c.user_bit c.writable_bit)

  -- The memory after the three writes, in plain addresses.
  abbrev pub entered : Memory
  entered = store32 m table_slot (physical + 4 * user + 2 * writable + 1)

  pub after_plain :
      after ≡ store32 (store32 entered directory_slot table) directory_slot (table + 3)
  unfolding enter_page
  after_plain =
      let linked =
        load32-store32_self entered directory_slot table (omega (arith, c.page_table.fits)) in
      let e : table ≡ 4 * (table / 4) = omega (arith, c.page_table.aligned) in
      let flagged : bit_or table 3 ≡ table + 3 = rw e (bit_or_three (table / 4)) in
      rw (slots.0, slots.1, entry_value, linked, flagged) refl

  pub directory_after : load32 after directory_slot ≡ table + 3
  directory_after = rw after_plain (
      load32-store32_self (store32 entered directory_slot table) directory_slot (table + 3)
        (omega (arith, c.page_table.fits)))

  -- Away from the two slots nothing changes.
  pub other_after :
      (b : ℕ)
      → (directory_slot + 4 ≤ b) ⊎ (b + 4 ≤ directory_slot)
      → (table_slot + 4 ≤ b) ⊎ (b + 4 ≤ table_slot)
      → load32 after b ≡ load32 m b
  other_after b d t = rw after_plain (
      load32-store32_ne (store32 entered directory_slot table) directory_slot b (table + 3) d
      ∙ load32-store32_ne entered directory_slot b table d
      ∙ load32-store32_ne m table_slot b (physical + 4 * user + 2 * writable + 1) t)

  pub slots_apart : (directory_slot + 4 ≤ table_slot) ⊎ (table_slot + 4 ≤ directory_slot)
  slots_apart = elim c.distinct [
    | inl h ↦ inl (omega (arith, c.address))
    | inr h ↦ inr (omega (arith, c.address))
  ]

  pub entry_after : load32 after table_slot ≡ physical + 4 * user + 2 * writable + 1
  entry_after =
      let value = physical + 4 * user + 2 * writable + 1 in
      rw after_plain (
        load32-store32_ne (store32 entered directory_slot table) directory_slot table_slot
          (table + 3) slots_apart
        ∙ load32-store32_ne entered directory_slot table_slot table slots_apart
        ∙ load32-store32_self m table_slot value
            (omega (arith, c.frame.fits, c.frame.aligned, c.user_bit, c.writable_bit)))
