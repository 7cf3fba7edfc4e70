-- ===== src/Boot/Identity.antt =====
-- The page tables that generatePageTable builds map the first two megabytes to themselves.
use mathlib.Core.Path.{ap₂}
use myreallyoldkernel.Boot.{
  round_tables, initial_bitmap, identity_entries, enter_table, generate_page_table, start_paging,
  display_mmap,
}
use myreallyoldkernel.Boot.Bitmap.{IsInitial, initial_bitmap-IsInitial, next_free}
use myreallyoldkernel.Mapping.Walk.{walk}
use myreallyoldkernel.Memory.{Memory}
use myreallyoldkernel.Paging.{Pages, page_size, Heap, ◌+w◌}
use myreallyoldkernel.Paging.Alloc.{alloc_page-first}
use myreallyoldkernel.Paging.Search.{IsFirstFree}
use myreallyoldkernel.Prelude.{
  ℕ, ◌+◌, ◌*◌, ◌/◌, ◌^◌, ◌≤◌, ◌<◌, ◌≡◌, refl, ap, ◌∙◌, arith, Bool, true, inl, inr, none, some, ltb,
  ◌==◌, if◌then◌else◌, length, Option-cases,
}
use myreallyoldkernel.Boot.Tables.{
  built-IsTables, walk-IsTables, cleared_two, kept_below, generate_runs, init_heap_runs,
}

first_free : (s : Pages) → IsInitial s.bitmap → IsFirstFree s.bitmap 0 1
first_free s start = record {
  free = record { in_map = omega (arith, start.words); clear = start.low_pages 1 (omega arith) };
  from = omega arith;
  taken = λ q lo hi. let e : q ≡ 0 = omega arith in rw e (start.low_pages 0 (omega arith));
}

few_tables : (n : ℕ) → n < 16 → round_tables n < 32
unfolding round_tables
few_tables n h = ground arith

generate_page_table_small :
    (s : Pages) (num_tables : ℕ)
    → round_tables num_tables < 32
    → generate_page_table s num_tables ≡ none
unfolding generate_page_table initial_bitmap
generate_page_table_small s num_tables h =
    let no_bytes : (round_tables num_tables / 32 == 0) ≡ true = ground arith in rw no_bytes refl

-- Where the memory that the boot loader reports gives at least 32 tables, generatePageTable succeeds
-- on a bitmap of 1024 words, whatever they hold: it takes page 1 for the directory, page 2 for the
-- table and page 3 for the heap, and the page walk from that directory maps each address below two
-- megabytes to itself and no other address.
pub generate_page_table-walk :
    (s : Pages) (num_tables : ℕ)
    → length s.bitmap ≡ 1024
    → 32 ≤ round_tables num_tables
    → (heap : Heap) × (generate_page_table s num_tables ≡ some (0x1000, heap))
      × ((v : ℕ)
          → v < 2 ^ 32
          → walk heap.pages.memory 0x1000 v ≡ (if ltb v (2 ^ 21) then some v else none))
      × (heap.next_address ≡ 0x3000)
      × IsFirstFree heap.pages.bitmap 0 4
generate_page_table-walk s num_tables words enough =
    let (b, initial, start) = initial_bitmap-IsInitial s.bitmap num_tables words enough in
    let s0 : Pages = record s { bitmap = b } in
    let first = first_free s0 start in
    let (r1, got1, did1) = alloc_page-first s0 1 start.words first in
    let words1 = did1.same_length ∙ start.words in
    let second =
      next_free s0 r1.1 1 r1.0 first did1 (omega (arith, start.words))
        (start.low_pages 2 (omega arith)) in
    let (r2, got2, did2) = alloc_page-first r1.1 2 words1 second in
    let words2 = did2.same_length ∙ words1 in
    let third =
      next_free r1.1 r2.1 2 r2.0 second did2 (omega (arith, words1))
        (did1.others 3 (λ e. absurd (omega arith)) ∙ start.low_pages 3 (omega arith)) in
    let s3 : Pages = record r2.1 {
      memory = enter_table (identity_entries 512 0 r2.1.memory r2.0) r1.0 r2.0;
    } in
    let (r3, got3, did3) = alloc_page-first s3 3 words2 third in
    let heap : Heap = record {
      pages = r3.1;
      next_address = r3.0;
      end_of_page = r3.0 +w page_size;
      num_heap_pages = 1;
    } in
    let at1 : r1.0 ≡ 0x1000 = did1.address in
    let at2 : r2.0 ≡ 0x2000 = did2.address in
    let at3 : r3.0 ≡ 0x3000 = did3.address in
    let built : s3.memory ≡ enter_table (identity_entries 512 0 r2.1.memory 0x2000) 0x1000 0x2000 =
      ap₂ (λ (d t : ℕ). enter_table (identity_entries 512 0 r2.1.memory t) d t) at1 at2 in
    let tables =
      built-IsTables r2.1.memory r3.1.memory (cleared_two s0 r1.1 r2.1 r1.0 r2.0 did1 did2)
        (λ b hi. kept_below s3 r3.1 r3.0 did3 b hi ∙ ap (λ (m : Memory). m b) built) in
    let runs : generate_page_table s num_tables ≡ some (r1.0, heap) =
      generate_runs s num_tables b r1 r2 heap initial got1 got2 (init_heap_runs s3 r3 got3) in
    (
      heap,
      runs ∙ ap (λ (d : ℕ). some (d, heap)) at1,
      λ v h. walk-IsTables r3.1.memory v tables h,
      at3,
      next_free s3 r3.1 3 r3.0 third did3 (omega (arith, words2)) (
          did2.others 4 (λ e. absurd (omega arith))
          ∙ did1.others 4 (λ e. absurd (omega arith))
          ∙ start.low_pages 4 (omega arith)),
    )

-- startPaging has no result on a machine with less than 60 megabytes, whatever its memory map says:
-- generatePageTable then has kmemset clear no byte, for which its loop goes through all of memory.
pub start_paging_small :
    (fuel : ℕ) (s : Pages) (mbt bytes_ram : ℕ) (has_mmap : Bool) (old_start esp ebp : ℕ)
    → bytes_ram < 60 * 2 ^ 20
    → start_paging fuel s mbt bytes_ram has_mmap old_start esp ebp ≡ none
unfolding start_paging
start_paging_small fuel s mbt bytes_ram has_mmap old_start esp ebp small =
    let num_tables = bytes_ram / 2 ^ 10 / 4096 + 1 in
    let few : round_tables num_tables < 32 = few_tables num_tables (omega arith) in
    elim (Option-cases (if has_mmap then display_mmap fuel s mbt 0 num_tables else some s)) [
      | inl e ↦ rw e refl
      | inr (s1, e) ↦ rw (e, generate_page_table_small s1 num_tables few) refl
    ]
