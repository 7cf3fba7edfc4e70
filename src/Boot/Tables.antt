-- ===== src/Boot/Tables.antt =====
-- The first table of the identity map, and the steps of generatePageTable.
use myreallyoldkernel.Boot.{initial_bitmap, identity_entries, enter_table, generate_page_table}
use myreallyoldkernel.Mapping.Walk.{walk}
use myreallyoldkernel.Memory.{Memory, load32}
use myreallyoldkernel.Paging.{Pages, page_size, alloc_page, Heap, init_heap, ◌+w◌}
use myreallyoldkernel.Paging.Alloc.{Allocated}
use myreallyoldkernel.Prelude.{
  ℕ, ◌+◌, ◌*◌, ◌/◌, ◌%◌, ◌^◌, ◌≤◌, ◌<◌, ◌≡◌, refl, arith, false, inl, inr, none, some, List, ltb,
  ◌==◌, if◌then◌else◌, Bool-cases,
}
use myreallyoldkernel.Boot.Entries.{
  identity_entries-reads, identity_entries-other, load32-zeros, load32-same, enter_table-reads,
}

-- The three pages that generatePageTable takes, and what the tables then hold.
pub record IsTables (m : Memory) : Type 0 where
  pub directory_entries :
      (k : ℕ) → k < 1024 → load32 m (0x1000 + 4 * k) ≡ (if k == 0 then 0x2003 else 0)
  pub table_entries :
      (k : ℕ) → k < 1024 → load32 m (0x2000 + 4 * k) ≡ (if ltb k 512 then k * 4096 + 3 else 0)

-- The tables in the two pages behind the first, cleared before and left alone after.
pub built-IsTables :
    (m m' : Memory)
    → ((b : ℕ) → 0x1000 ≤ b → b < 0x3000 → m b ≡ 0)
    → ((b : ℕ) → b < 0x3000 → m' b ≡ enter_table (identity_entries 512 0 m 0x2000) 0x1000 0x2000 b)
    → IsTables m'
built-IsTables m m' blank kept =
    let mapped = identity_entries 512 0 m 0x2000 in
    let built = enter_table mapped 0x1000 0x2000 in
    let same =
      λ (b : ℕ) (h : b + 4 ≤ 0x3000). load32-same built m' b (λ i l. kept (b + i) (omega arith)) in
    let zeros = λ (b : ℕ) (lo : 0x1000 ≤ b) (hi : b + 4 ≤ 0x3000).
      load32-zeros m b (λ i l. blank (b + i) (omega arith) (omega arith)) in
    record {
      directory_entries = λ k h. ground (
        arith,
        same (0x1000 + 4 * k) (omega arith),
        enter_table-reads mapped 0x1000 0x2000 (0x1000 + 4 * k) refl (omega arith) (omega arith),
        identity_entries-other 512 0 m 0x2000 (0x1000 + 4 * k) (omega arith) (omega arith)
            (omega arith),
        zeros (0x1000 + 4 * k) (omega arith) (omega arith),
      );
      table_entries = λ k h. ground (
        arith,
        same (0x2000 + 4 * k) (omega arith),
        enter_table-reads mapped 0x1000 0x2000 (0x2000 + 4 * k) refl (omega arith) (omega arith),
        identity_entries-reads 512 0 m 0x2000 k (omega arith) (omega arith) h,
        zeros (0x2000 + 4 * k) (omega arith) (omega arith),
      );
    }

-- The page walk over the tables.
pub walk-IsTables :
    (m : Memory) (v : ℕ)
    → IsTables m
    → v < 2 ^ 32
    → walk m 0x1000 v ≡ (if ltb v (2 ^ 21) then some v else none)
unfolding walk
walk-IsTables m v t h =
    let entry = t.directory_entries (v / 2 ^ 22) (omega arith) in
    let page = t.table_entries (v / 4096 % 1024) (omega arith) in
    elim (Bool-cases (v / 2 ^ 22 == 0)) [
      | inr far ↦
          let absent : load32 m (0x1000 + 4 * (v / 2 ^ 22)) ≡ 0 = ground (arith, entry, far) in
          let beyond : ltb v (2 ^ 21) ≡ false = ground arith in rw (walk, absent, beyond) refl
      | inl near ↦
          let here : load32 m (0x1000 + 4 * (v / 2 ^ 22)) ≡ 0x2003 = ground (arith, entry, near) in
          elim (Bool-cases (ltb v (2 ^ 21))) [
            | inr beyond ↦
                let absent : load32 m (0x2000 + 4 * (v / 4096 % 1024)) ≡ 0 = ground (arith, page) in
                rw (walk, here, absent, beyond) refl
            | inl low ↦
                let present : load32 m (0x2000 + 4 * (v / 4096 % 1024)) ≡ v / 4096 * 4096 + 3 =
                  ground (arith, page) in
                let odd : (v / 4096 * 4096 + 3) % 2 ≡ 1 = omega arith in
                let frame : (v / 4096 * 4096 + 3) / 4096 * 4096 + v % 4096 ≡ v = omega arith in
                rw (walk, here, present, odd, frame, low) refl
          ]
    ]

pub cleared_two :
    (s s1 s2 : Pages) (a1 a2 : ℕ)
    → Allocated s 1 a1 s1
    → Allocated s1 2 a2 s2
    → (b : ℕ) → 0x1000 ≤ b
    → b < 0x3000
    → s2.memory b ≡ 0
cleared_two s s1 s2 a1 a2 did1 did2 b lo hi =
    ground (arith, did1.cleared b, did2.cleared b, did1.address, did2.address)

pub kept_below :
    (s s' : Pages) (a : ℕ) → Allocated s 3 a s' → (b : ℕ) → b < 0x3000 → s'.memory b ≡ s.memory b
kept_below s s' a did b hi = ground (arith, did.cleared b, did.address)

-- The calls of generatePageTable, each with its answer.
pub generate_runs :
    (s : Pages) (num_tables : ℕ) (b : List ℕ) (r1 r2 : ℕ × Pages) (heap : Heap)
    → initial_bitmap s.bitmap num_tables ≡ some b
    → alloc_page (record s { bitmap = b }) ≡ some r1
    → alloc_page r1.1 ≡ some r2
    → init_heap
        (record r2.1 { memory = enter_table (identity_entries 512 0 r2.1.memory r2.0) r1.0 r2.0 })
      ≡ some heap
    → generate_page_table s num_tables ≡ some (r1.0, heap)
unfolding generate_page_table
generate_runs s num_tables b r1 r2 heap initial got1 got2 made =
    rw (generate_page_table, initial, got1, got2, made) refl

pub init_heap_runs :
    (s : Pages) (r : ℕ × Pages)
    → alloc_page s ≡ some r
    → init_heap s
      ≡ some (record {
        pages = r.1;
        next_address = r.0;
        end_of_page = r.0 +w page_size;
        num_heap_pages = 1;
      })
unfolding init_heap
init_heap_runs s r got = rw (init_heap, got) refl
