-- ===== src/Paging.antt =====
-- The page allocator and the kernel heap of paging.c: pageBitmap, allocPage, freePage, initHeap and
-- kmalloc.
pub mod Search
pub mod Alloc
pub mod Free
pub mod Kmalloc
pub mod Tests
use myreallyoldkernel.Bits.{bit_set, bit_clear, bit_test}
use myreallyoldkernel.Memory.{Memory, kmemset}
use myreallyoldkernel.Prelude.{
  ℕ, zero, suc, ◌+◌, ◌-◌, ◌*◌, ◌/◌, ◌%◌, ◌^◌, Bool, ◌&&◌, ◌||◌, Option, none, some, List, ltb, ◌==◌,
  if◌then◌else◌, get_elem?, get_or, set,
}

-- Addition of 32-bit registers.
infixl 65 ◌+w◌
abbrev pub ◌+w◌ : ℕ → ℕ → ℕ
a +w b = (a + b) % 2 ^ 32

abbrev pub page_size : ℕ
page_size = 0x1000

-- `uint32 pageBitmap [1024]`, and the memory that allocPage clears.
pub record Pages : Type 0 where
  pub bitmap : List ℕ
  pub memory : Memory

-- How the scan of allocPage ends. The loop itself has no bound: `past_end` is a read behind the
-- array.
pub data Scan : Type 0 where
  found : ℕ → Scan
  past_end : Scan
  out_of_fuel : Scan

-- `(bit % 32 == 0 || bit == 0)` and the word is all taken
abbrev pub skips : ℕ → ℕ → Bool
skips bit word = (bit % 32 == 0 || bit == 0) && word == 0xFFFF_FFFF

unfoldable pub scan : ℕ → List ℕ → ℕ → Scan
unfolding bit_test
scan zero bitmap bit = out_of_fuel
scan (suc fuel) bitmap bit = elim (get_elem? bitmap (bit / 32)) [
  | none ↦ past_end
  | some word ↦
      let skip = scan fuel bitmap (bit +w 32) in
      let step = scan fuel bitmap (bit +w 1) in
      if skips bit word then skip else if bit_test word bit == 0 then found bit else step
]

-- Each round moves on by a bit at least, and the array has 32 * 1024.
abbrev pub scan_fuel : ℕ
scan_fuel = 32 * 1024 + 1

-- The page of a bit marked as used, cleared and returned.
unfoldable pub take_page : Pages → ℕ → ℕ × Pages
unfolding bit_set
take_page s bit = (
  bit * page_size % 2 ^ 32,
  record {
    bitmap = set s.bitmap (bit / 32) (bit_set (get_or s.bitmap (bit / 32) 0) (bit % 32));
    memory = kmemset s.memory (bit * page_size % 2 ^ 32) 0 page_size;
  },
)

-- `none` is a scan that ran off the array.
unfoldable pub alloc_page : Pages → Option (ℕ × Pages)
unfolding scan take_page
alloc_page s = elim (scan scan_fuel s.bitmap 0) [ found bit ↦ some (take_page s bit) | _ ↦ none ]

-- The rounds left, and the round's number. `none` is an access behind the array.
unfoldable pub free_from : ℕ → ℕ → ℕ → List ℕ → Option (List ℕ)
unfolding bit_clear
free_from zero i first bitmap = some bitmap
free_from (suc n) i first bitmap =
    let word = (first +w i) / 4096 / 32 in
    elim (get_elem? bitmap word) [
      | none ↦ none
      | some w ↦
          free_from n (i +w 1) first (set bitmap word (bit_clear w ((first +w i) % (4096 * 32))))
    ]

unfoldable pub free_page : ℕ → ℕ → List ℕ → Option (List ℕ)
unfolding free_from
free_page start pages bitmap = free_from pages 0 start bitmap

-- The heap is a bump allocator over single pages.
pub record Heap : Type 0 where
  pub pages : Pages
  pub next_address : ℕ
  pub end_of_page : ℕ
  pub num_heap_pages : ℕ

unfoldable pub init_heap : Pages → Option Heap
init_heap s = elim (alloc_page s) [
  | none ↦ none
  | some (page, s') ↦ some (record {
    pages = s';
    next_address = page;
    end_of_page = page +w page_size;
    num_heap_pages = 1;
  })
]

-- `nextAddress += bytes; return nextAddress - bytes;`
unfoldable pub bump : Heap → ℕ → ℕ × Heap
bump h bytes =
    let next = h.next_address +w bytes in
    ((next + 2 ^ 32 - bytes) % 2 ^ 32, record h { next_address = next })

unfoldable pub kmalloc : Heap → ℕ → Option (ℕ × Heap)
unfolding bump
kmalloc h bytes =
    if ltb h.end_of_page (h.next_address +w bytes)
    then elim (alloc_page h.pages) [
      | none ↦ none
      | some (page, s') ↦ some (
          bump
            (record {
              pages = s';
              next_address = page;
              end_of_page = page +w page_size;
              num_heap_pages = h.num_heap_pages +w 1;
            })
            bytes)
    ]
    else some (bump h bytes)
