-- ===== src/Mapping.antt =====
-- Page tables: mapPage and clonePageDirectory of paging.c. A table is 1024 uint32 entries in the
-- memory that the page allocator clears; tables are reached by their physical addresses, as the
-- code does under the identity map of low memory. The invlpg instructions have no effect here.
pub mod Flags
pub mod Entries
pub mod Walk
pub mod Clone
pub mod Copy
pub mod Prepare
pub mod Duplicate
pub mod Tests
use myreallyoldkernel.Memory.{Memory, kmemset, kmemcpy, load32, store32}
use myreallyoldkernel.Paging.{Pages, page_size, alloc_page, ◌+w◌}
use myreallyoldkernel.Prelude.{
  ℕ, zero, suc, ◌+◌, ◌-◌, ◌*◌, ◌/◌, ◌%◌, ◌^◌, bit_and, bit_or, ◌&&◌, ◌||◌, Option, none, some, ltb,
  ◌==◌, if◌then◌else◌,
}

-- `table [i]` for an array of uint32
abbrev pub slot : ℕ → ℕ → ℕ
slot table i = table +w 4 * i

abbrev pub directory_index : ℕ → ℕ
directory_index address = address / 2 ^ 22

abbrev pub table_index : ℕ → ℕ
table_index address = bit_and (address / 2 ^ 12) 0x03FF

-- The mask with which mapPage reads an address out of an entry.
abbrev pub entry_address : ℕ → ℕ
entry_address entry = bit_and entry 0xFFFF_FF00

-- The table for a directory entry, or a fresh page.
unfoldable pub table_for : Pages → ℕ → Option (ℕ × Pages)
table_for s entry = if entry_address entry == 0 then alloc_page s else some (entry_address entry, s)

-- `physicalAddr | 1 | 2*writable | 4*user`
abbrev pub page_entry : ℕ → ℕ → ℕ → ℕ
page_entry physical user writable = bit_or (bit_or (bit_or physical 1) (2 * writable)) (4 * user)

-- The three writes of the first half.
unfoldable pub enter_page : Memory → ℕ → ℕ → ℕ → ℕ → ℕ → ℕ → Memory
enter_page m dir table physical virtual user writable =
    let here = slot dir (directory_index virtual) in
    let entered =
      store32 m (slot table (table_index virtual)) (page_entry physical user writable) in
    let linked = store32 entered here table in store32 linked here (bit_or (load32 linked here) 3)

-- The second half: a page of low memory that was mapped to itself is unmapped.
unfoldable pub unmap_identity : Memory → ℕ → ℕ → Memory
unmap_identity m dir physical =
    let table = entry_address (load32 m (slot dir (directory_index physical))) in
    let here = slot table (table_index physical) in
    if ltb physical 0x1F_4000 && entry_address (load32 m here) == physical
    then store32 m here 0
    else m

unfoldable pub map_page : Pages → ℕ → ℕ → ℕ → ℕ → ℕ → Option Pages
unfolding table_for enter_page unmap_identity
map_page s dir physical virtual user writable =
    elim (table_for s (load32 s.memory (slot dir (directory_index virtual)))) [
      | none ↦ none
      | some (table, s') ↦ some (record s' {
        memory =
            unmap_identity (enter_page s'.memory dir table physical virtual user writable) dir
              physical;
      })
    ]

-- One entry of the new directory: all but the stack's are shared with the kernel.
unfoldable pub link_entry : Memory → ℕ → ℕ → ℕ → ℕ → Memory
link_entry m kernel source new i =
    let entry = load32 m (slot source i) in
    if entry == 0 || i == 896
    then m
    else if load32 m (slot kernel i) == entry
    then store32 m (slot new i) entry
    else m

-- The entries left, and the next index.
unfoldable pub link_entries : ℕ → ℕ → Memory → ℕ → ℕ → ℕ → Memory
unfolding link_entry
link_entries zero i m kernel source new = m
link_entries (suc n) i m kernel source new =
    link_entries n (i + 1) (link_entry m kernel source new i) kernel source new

-- `kernel` is `pageDirectory`. The stack's page is found through entry 896 of the source.
unfoldable pub clone_page_directory : Pages → ℕ → ℕ → Option (ℕ × Pages)
unfolding link_entries map_page
clone_page_directory s kernel source = elim (alloc_page s) [
  | none ↦ none
  | some (new, s1) ↦
      let blank = kmemset s1.memory new 0 page_size in
      let s2 : Pages = record s1 { memory = link_entries 1024 0 blank kernel source new } in
      elim (alloc_page s2) [
        | none ↦ none
        | some (stack, s3) ↦
            let table = bit_and (load32 s3.memory (slot source 896)) 0xFFFF_F000 in
            let old = bit_and (load32 s3.memory table) 0xFFFF_F000 in
            let s4 : Pages = record s3 { memory = kmemcpy s3.memory stack old page_size } in
            elim (map_page s4 new stack 0xE000_0000 0 1) [ none ↦ none | some s5 ↦ some (new, s5) ]
      ]
]
