-- ===== src/Mapping/Walk.antt =====
-- What mapPage enters is what the processor's page walk finds.
use native.Mathlib.Decide.{ℕ_discrete}
use myreallyoldkernel.Mapping.{
  slot, directory_index, table_index, entry_address, table_for, enter_page, unmap_identity,
  map_page,
}
use myreallyoldkernel.Memory.{Memory, load32}
use myreallyoldkernel.Memory.Laws.{load32-store32_ne}
use myreallyoldkernel.Paging.{Pages}
use myreallyoldkernel.Prelude.{
  ℕ, ◌+◌, ◌*◌, ◌/◌, ◌%◌, ◌^◌, ◌≤◌, ◌<◌, ◌≡◌, ◌≢◌, ◌⊎◌, inl, inr, ◌∙◌, refl, ap, arith, ◌&&◌, Option,
  none, some, ltb, ◌==◌, if◌then◌else◌, Bool-cases,
}
use myreallyoldkernel.Mapping.Flags.{entry_address_lem, table_index_lem}
use myreallyoldkernel.Mapping.Entries.{Apart, Call, directory_after, other_after, entry_after}

-- The page walk of the processor: the frame and the offset, or nothing where an entry is absent.
unfoldable pub walk : Memory → ℕ → ℕ → Option ℕ
walk m dir virtual =
    let directory_entry = load32 m (dir + 4 * (virtual / 2 ^ 22)) in
    let table = directory_entry / 4096 * 4096 in
    let entry = load32 m (table + 4 * (virtual / 4096 % 1024)) in
    if directory_entry % 2 == 1 && entry % 2 == 1
    then some (entry / 4096 * 4096 + virtual % 4096)
    else none

-- The walk where both entries are known.
walk_of :
    (m : Memory) (dir virtual table entry : ℕ)
    → table % 4096 ≡ 0
    → load32 m (dir + 4 * (virtual / 2 ^ 22)) ≡ table + 3
    → load32 m (table + 4 * (virtual / 4096 % 1024)) ≡ entry
    → entry % 2 ≡ 1
    → walk m dir virtual ≡ some (entry / 4096 * 4096 + virtual % 4096)
unfolding walk
walk_of m dir virtual table entry aligned d e present =
    let page : (table + 3) / 4096 * 4096 ≡ table = omega arith in
    let odd : (table + 3) % 2 ≡ 1 = omega arith in rw (d, page, e, odd, present) refl

-- Where the page of the identity map that mapPage may clear lies: not in the entry it wrote.
pub record LowTable (m : Memory) (dir table physical virtual : ℕ) : Type 0 where
  pub moved : physical / 4096 ≢ virtual / 4096
  pub apart :
      directory_index virtual ≢ 0
      → Apart (entry_address (load32 m dir)) table × Apart (entry_address (load32 m dir)) dir
  pub fits : entry_address (load32 m dir) + 4096 ≤ 2 ^ 32

module _ (m : Memory) (dir table physical virtual user writable : ℕ)
    (c : Call dir table physical virtual user writable)
    (low : LowTable m dir table physical virtual) where
  abbrev identity_table : ℕ
  identity_table = entry_address (
      load32 (enter_page m dir table physical virtual user writable)
        (slot dir (directory_index physical)))

  -- The table of the first 4 MiB after the call: the one just written, or the one there before.
  identity_table-cases :
      physical < 0x1F_4000
      → ((virtual / 2 ^ 22 ≡ 0) × (identity_table ≡ table))
        ⊎ ((virtual / 2 ^ 22 ≢ 0) × (identity_table ≡ entry_address (load32 m dir)))
  identity_table-cases small =
      let first : slot dir (directory_index physical) ≡ dir = omega (arith, c.directory.fits) in
      elim (ℕ_discrete (virtual / 2 ^ 22) 0) [
        | yes z ↦
            let here : dir + 4 * (virtual / 2 ^ 22) ≡ dir = omega arith in
            let value = rw here at (directory_after m dir table physical virtual user writable c) in
            let address : entry_address (table + 3) ≡ table =
              omega
                (arith, entry_address_lem (table + 3), c.page_table.fits, c.page_table.aligned) in
            inl (z, rw (first, value) address)
        | no nz ↦
            let same =
              other_after m dir table physical virtual user writable c dir (inr (omega arith))
                (elim c.distinct [ inl h ↦ inr (omega arith) | inr h ↦ inl (omega arith) ]) in
            inr (nz, rw (first, same) refl)
      ]

  -- The slot that the second half clears is neither of the two that the first half wrote.
  cleared_apart :
      physical < 0x1F_4000
      → let here = slot identity_table (table_index physical) in
        ((here + 4 ≤ dir + 4 * (virtual / 2 ^ 22)) ⊎ (dir + 4 * (virtual / 2 ^ 22) + 4 ≤ here))
        × ((here + 4 ≤ table + 4 * (virtual / 4096 % 1024))
            ⊎ (table + 4 * (virtual / 4096 % 1024) + 4 ≤ here))
  cleared_apart small =
      let index : table_index physical ≡ physical / 4096 =
        omega (arith, table_index_lem physical) in
      elim (identity_table-cases small) [
        | inl (z, e) ↦
            let here : slot identity_table (table_index physical) ≡ table + 4 * (physical / 4096) =
              rw (e, index) (omega (arith, c.page_table.fits)) in
            rw here (omega (arith, c.distinct), omega (arith, low.moved))
        | inr (nz, e) ↦
            let here : slot identity_table (table_index physical)
                ≡ entry_address (load32 m dir) + 4 * (physical / 4096) =
              rw (e, index) (omega (arith, low.fits)) in
            let (from_table, from_dir) = low.apart nz in
            rw here (omega (arith, from_dir, c.address), omega (arith, from_table))
      ]

  -- The second half keeps both slots.
  unmap_keeps :
      (b : ℕ)
      → (physical < 0x1F_4000
          → let here = slot identity_table (table_index physical) in
            (here + 4 ≤ b) ⊎ (b + 4 ≤ here))
      → load32
          (unmap_identity (enter_page m dir table physical virtual user writable) dir physical)
          b
        ≡ load32 (enter_page m dir table physical virtual user writable) b
  unfolding unmap_identity
  unmap_keeps b apart =
      let m' = enter_page m dir table physical virtual user writable in
      let here = slot identity_table (table_index physical) in
      elim (Bool-cases (ltb physical 0x1F_4000 && entry_address (load32 m' here) == physical)) [
        | inr n ↦ rw n refl
        | inl y ↦ rw y (load32-store32_ne m' here b 0 (apart (ground arith)))
      ]

  -- Words away from the two slots and from the table of the identity map stay as they are.
  pub words_kept :
      (b : ℕ)
      → virtual / 2 ^ 22 ≢ 0
      → (entry_address (load32 m dir) + 4096 ≤ b) ⊎ (b + 4 ≤ entry_address (load32 m dir))
      → (dir + 4 * (virtual / 2 ^ 22) + 4 ≤ b) ⊎ (b + 4 ≤ dir + 4 * (virtual / 2 ^ 22))
      → (table + 4 * (virtual / 4096 % 1024) + 4 ≤ b)
        ⊎ (b + 4 ≤ table + 4 * (virtual / 4096 % 1024))
      → load32
          (unmap_identity (enter_page m dir table physical virtual user writable) dir physical)
          b
        ≡ load32 m b
  words_kept b nz far from_dir from_table =
      unmap_keeps b (λ small. elim (identity_table-cases small) [
        | inl (z, _) ↦ absurd (nz z)
        | inr (_, e) ↦
            let index : table_index physical ≡ physical / 4096 =
              omega (arith, table_index_lem physical) in
            let here : slot identity_table (table_index physical)
                ≡ entry_address (load32 m dir) + 4 * (physical / 4096) =
              rw (e, index) (omega (arith, low.fits)) in
            rw here (omega (arith, far))
      ])
      ∙ other_after m dir table physical virtual user writable c b from_dir from_table

-- How mapPage ends where it has a table.
pub map_page-table_for :
    (s s1 : Pages) (dir table physical virtual user writable : ℕ)
    → table_for s (load32 s.memory (slot dir (directory_index virtual))) ≡ some (table, s1)
    → map_page s dir physical virtual user writable
      ≡ some (record s1 {
        memory =
            unmap_identity
              (enter_page s1.memory dir table physical virtual user writable)
              dir
              physical;
      })
unfolding map_page
map_page-table_for s s1 dir table physical virtual user writable found = rw (found, map_page) refl

-- mapPage, where `table` is the page table that it finds or allocates for the virtual address, all
-- tables are whole pages that share no byte, the frame is page-aligned and the page is not mapped
-- to its own address: it succeeds, and the processor's page walk then takes the virtual address to
-- the frame at the same offset, also after the identity map of the frame has been cleared.
pub map_page-walk :
    (s s1 : Pages) (dir table physical virtual user writable : ℕ)
    → Call dir table physical virtual user writable
    → table_for s (load32 s.memory (slot dir (directory_index virtual))) ≡ some (table, s1)
    → LowTable s1.memory dir table physical virtual
    → (s' : Pages) × (map_page s dir physical virtual user writable ≡ some s')
      × (s'.bitmap ≡ s1.bitmap)
      × (walk s'.memory dir virtual ≡ some (physical + virtual % 4096))
unfolding map_page
map_page-walk s s1 dir table physical virtual user writable c found low =
    let m' = enter_page s1.memory dir table physical virtual user writable in
    let apart = cleared_apart s1.memory dir table physical virtual user writable c low in
    let keeps = unmap_keeps s1.memory dir table physical virtual user writable c low in
    let value = physical + 4 * user + 2 * writable + 1 in
    let final : Pages = record s1 { memory = unmap_identity m' dir physical } in
    let linked =
      keeps (dir + 4 * (virtual / 2 ^ 22)) (λ small. (apart small).0)
      ∙ directory_after s1.memory dir table physical virtual user writable c in
    let entry =
      keeps (table + 4 * (virtual / 4096 % 1024)) (λ small. (apart small).1)
      ∙ entry_after s1.memory dir table physical virtual user writable c in
    let frame : value / 4096 * 4096 ≡ physical =
      omega (arith, c.frame.aligned, c.user_bit, c.writable_bit) in
    let odd : value % 2 ≡ 1 = omega (arith, c.frame.aligned, c.user_bit, c.writable_bit) in
    (
      final,
      rw (found, map_page) refl,
      refl,
      walk_of final.memory dir virtual table value c.page_table.aligned linked entry odd
          ∙ ap (λ (f : ℕ). some (f + virtual % 4096)) frame,
    )
