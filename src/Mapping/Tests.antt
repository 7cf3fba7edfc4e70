-- ===== src/Mapping/Tests.antt =====
-- mapPage and the loop of clonePageDirectory on a memory with one page directory and one page table.
use myreallyoldkernel.Memory.Laws.{IsBytes}
use myreallyoldkernel.Mapping.{map_page, table_for}
use myreallyoldkernel.Mapping.Entries.{Call}
use myreallyoldkernel.Mapping.Prepare.{Room}
use myreallyoldkernel.Paging.Search.{page_bit}
use myreallyoldkernel.Bits.Digits.{digit}
use myreallyoldkernel.Prelude.{ℕ, ◌∷◌, replicate, length, length-replicate}
use myreallyoldkernel.Mapping.Walk.{LowTable, walk, map_page-walk}
use myreallyoldkernel.Memory.{Memory, load32, store32, store8}
use myreallyoldkernel.Paging.{Pages}
use myreallyoldkernel.Paging.Tests.{heap}
use myreallyoldkernel.Prelude.{◌+◌, ◌%◌, ◌≡◌, refl, arith, some, inl, ◌||◌, ◌==◌, if◌then◌else◌}

-- A directory at 0x5000 whose first entry is the table at 0x6000.
abbrev tables : Memory
tables = store32 (λ _. 0) 0x5000 0x6003

abbrev mapped : Pages
mapped = record heap.pages { memory = tables }

mapped-Call : Call 0x5000 0x6000 0x9000 0x7123 1 1
mapped-Call = record {
  directory = record { aligned = refl; fits = omega arith };
  page_table = record { aligned = refl; fits = omega arith };
  distinct = inl (omega arith);
  frame = record { aligned = refl; fits = omega arith };
  address = omega arith;
  user_bit = omega arith;
  writable_bit = omega arith;
}

mapped-table : table_for mapped (load32 tables 0x5000) ≡ some (0x6000, mapped)
unfolding table_for load32 store32 store8
mapped-table = refl

first_entry : load32 tables 0x5000 ≡ 0x6003
unfolding load32 store32 store8
first_entry = refl

mapped-LowTable : LowTable tables 0x5000 0x6000 0x9000 0x7123
mapped-LowTable = record {
  moved = λ e. absurd (omega arith);
  apart = λ ne. absurd (ne refl);
  fits = rw first_entry (omega arith);
}

map_page-walk_example :
    (s' : Pages) × (map_page mapped 0x5000 0x9000 0x7123 1 1 ≡ some s')
    × (s'.bitmap ≡ mapped.bitmap)
    × (walk s'.memory 0x5000 0x7123 ≡ some (0x9000 + 0x7123 % 4096))
map_page-walk_example =
    map_page-walk mapped mapped 0x5000 0x6000 0x9000 0x7123 1 1 mapped-Call mapped-table
      mapped-LowTable

empty-IsBytes : IsBytes (λ _. 0)
empty-IsBytes = λ a. omega arith

-- Every page but the first is free, and no page table has an entry.
abbrev pub spare : Pages
spare = record { bitmap = 1 ∷ replicate 1023 0; memory = λ _. 0 }

spare-words : length spare.bitmap ≡ 1024
spare-words = omega (arith, length-replicate {A = ℕ} 1023 0)

pub spare-Room : Room spare 0 0 1
unfolding page_bit digit load32
spare-Room = record {
  bytes = empty-IsBytes;
  words = spare-words;
  first = record {
    free = record { in_map = omega (arith, spare-words); clear = refl };
    from = omega arith;
    taken = λ q lo hi. let e : q ≡ 0 = omega arith in rw e refl;
  };
  next = refl;
  third = refl;
  low = omega arith;
  last = omega arith;
  kernel_out = (inl (omega arith), omega arith);
  source_out = (inl (omega arith), omega arith);
  table_out = (inl (omega arith), omega arith);
  stack_out = (inl (omega arith), omega arith);
  identity_out = (inl (omega arith), omega arith);
}

-- A kernel directory at 0x10000 and a task's at 0x20000 that share their first entry; the task has a table
-- of its own at 0x60000 and a stack at 0x50000, in the table at 0x40000.
abbrev two_directories : Memory
two_directories = λ a.
    if a == 0x1_0000 || (a == 0x1_0002 || (a == 0x2_0000 || a == 0x2_0002))
    then 3
    else if a == 0x2_0014 || (a == 0x2_0E00 || a == 0x4_0000)
    then 3
    else if a == 0x2_0016
    then 6
    else if a == 0x2_0E02
    then 4
    else if a == 0x4_0002
    then 5
    else if a == 0x5_0008
    then 0x77
    else 0

abbrev busy : Pages
busy = record { bitmap = spare.bitmap; memory = two_directories }
