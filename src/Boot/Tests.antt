-- ===== src/Boot/Tests.antt =====
-- A machine with 128 megabytes, and one with 16.
use myreallyoldkernel.Boot.{round_tables, generate_page_table, start_paging}
use myreallyoldkernel.Boot.{relocate}
use myreallyoldkernel.Boot.Stack.{relocated, relocate-words}
use myreallyoldkernel.Memory.{Memory, load32, store32}
use myreallyoldkernel.Prelude.{◌-◌}
use myreallyoldkernel.Boot.Identity.{generate_page_table-walk, start_paging_small}
use myreallyoldkernel.Mapping.Walk.{walk}
use myreallyoldkernel.Paging.{Pages, Heap}
use myreallyoldkernel.Paging.Search.{IsFirstFree}
use myreallyoldkernel.Prelude.{
  ℕ, ◌^◌, ◌*◌, ◌≤◌, ◌<◌, ◌≡◌, arith, true, none, some, ltb, if◌then◌else◌, length, replicate,
  length-replicate,
}

-- Whatever the bitmap held before.
abbrev pages : Pages
pages = record { bitmap = replicate 1024 0xABCD; memory = λ _. 7 }

pages-words : length pages.bitmap ≡ 1024
pages-words = length-replicate {A = ℕ} 1024 0xABCD

tables_of_128 : 32 ≤ round_tables 33
unfolding round_tables
tables_of_128 = omega arith

generate_page_table-walk_example :
    (heap : Heap) × (generate_page_table pages 33 ≡ some (0x1000, heap))
    × ((v : ℕ)
        → v < 2 ^ 32
        → walk heap.pages.memory 0x1000 v ≡ (if ltb v (2 ^ 21) then some v else none))
    × (heap.next_address ≡ 0x3000)
    × IsFirstFree heap.pages.bitmap 0 4
generate_page_table-walk_example = generate_page_table-walk pages 33 pages-words tables_of_128

start_paging_small_example :
    start_paging 10 pages 0x9000 (16 * 2 ^ 20) true 0x7_0000 0x6_FF00 0x6_FF80 ≡ none
start_paging_small_example =
    start_paging_small 10 pages 0x9000 (16 * 2 ^ 20) true 0x7_0000 0x6_FF00 0x6_FF80 (omega arith)

-- Three words below 0x2010, two of them in the old stack.
abbrev copied_stack : Memory
copied_stack = store32 (store32 (λ _. 0) 0x2008 0x6_FF40) 0x2004 0x6_FF80

relocate-words_example :
    load32 (relocate 3 copied_stack 0x200C 0x6_FF00 0x7_0000 0x1000) (0x200C - 4 * 2)
    ≡ relocated 0x6_FF00 0x7_0000 0x1000 (load32 copied_stack (0x200C - 4 * 2))
relocate-words_example =
    relocate-words 3 2 copied_stack 0x200C 0x6_FF00 0x7_0000 0x1000 (omega arith) (omega arith)
      (omega arith)
