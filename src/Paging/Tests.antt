-- ===== src/Paging/Tests.antt =====
-- Runs of the page allocator, and its theorems at small maps.
use myreallyoldkernel.Bits.Digits.{digit, digit-ones}
use myreallyoldkernel.Memory.{Memory}
use myreallyoldkernel.Paging.{
  bump, Pages, page_size, past_end, scan, scan_fuel, alloc_page, free_page, Heap, kmalloc,
}
use myreallyoldkernel.Paging.Alloc.{Allocated, alloc_page-first, alloc_page-full}
use myreallyoldkernel.Paging.Free.{free_page-first_of_word}
use myreallyoldkernel.Paging.Kmalloc.{IsHeap, Cut, kmalloc-Cut, kmalloc_disjoint, kmalloc_overruns}
use myreallyoldkernel.Paging.Search.{page_bit, InMap, IsFirstFree}
use myreallyoldkernel.Prelude.{
  ℕ, zero, suc, ◌+◌, ◌*◌, ◌/◌, ◌%◌, ◌≤◌, ◌<◌, ◌≡◌, refl, ◌≢◌, ◌⊎◌, arith, none, some, List, ◌∷◌,
  ◌==◌, if◌then◌else◌, length, replicate, length-replicate, get_or-replicate,
}

abbrev pub memory : Memory
memory = λ _. 7

-- Only page 0 is taken, as generatePageTable leaves the low end of the map.
abbrev boot : Pages
boot = record { bitmap = 1 ∷ replicate 1023 0; memory = memory }

boot-words : length boot.bitmap ≡ 1024
boot-words = omega (arith, length-replicate {A = ℕ} 1023 0)

boot-IsFirstFree : IsFirstFree boot.bitmap 0 1
unfolding page_bit digit
boot-IsFirstFree = record {
  free = record { in_map = omega (arith, boot-words); clear = refl };
  from = omega arith;
  taken = λ q lo hi. let e : q ≡ 0 = omega arith in rw e refl;
}

-- The heap in page 1, 100 bytes into it.
abbrev pub heap : Heap
heap = record {
  pages = record { bitmap = 3 ∷ replicate 1023 0; memory = memory };
  next_address = 4196;
  end_of_page = 8192;
  num_heap_pages = 1;
}

heap-words : length heap.pages.bitmap ≡ 1024
heap-words = omega (arith, length-replicate {A = ℕ} 1023 0)

pub heap-IsHeap : IsHeap heap 1
unfolding page_bit digit
heap-IsHeap = record {
  words = heap-words;
  in_map = omega (arith, heap-words);
  used = refl;
  low = omega arith;
  high = omega arith;
  end = refl;
}

two_taken : (q : ℕ) → q < 2 → page_bit heap.pages.bitmap q ≡ 1
unfolding page_bit digit
two_taken zero h = refl
two_taken (suc zero) h = refl
two_taken (suc (suc q)) h = absurd (omega arith)

pub heap-IsFirstFree : IsFirstFree heap.pages.bitmap 0 2
unfolding page_bit digit
heap-IsFirstFree = record {
  free = record { in_map = omega (arith, heap-words); clear = refl };
  from = omega arith;
  taken = λ q lo hi. two_taken q hi;
}

abbrev full : Pages
full = record { bitmap = replicate 1024 0xFFFF_FFFF; memory = memory }

full-words : length full.bitmap ≡ 1024
full-words = length-replicate {A = ℕ} 1024 0xFFFF_FFFF

full-taken : (q : ℕ) → InMap full.bitmap q → page_bit full.bitmap q ≡ 1
unfolding page_bit
full-taken q h =
    rw (get_or-replicate {A = ℕ} 1024 (q / 32) 0xFFFF_FFFF 0 (omega (arith, full-words)))
      (digit-ones 32 (q % 32) (omega arith))

alloc_page-first_example : (r : ℕ × Pages) × (alloc_page boot ≡ some r) × Allocated boot 1 r.0 r.1
alloc_page-first_example = alloc_page-first boot 1 boot-words boot-IsFirstFree

alloc_page-full_example : (scan scan_fuel full.bitmap 0 ≡ past_end) × (alloc_page full ≡ none)
alloc_page-full_example = alloc_page-full full full-words full-taken

free_page-first_of_word_example :
    (after : List ℕ) × (free_page (1 * page_size) 1 heap.pages.bitmap ≡ some after)
    × (page_bit after 1 ≡ (if 1 == 1 / 32 * 32 then 0 else page_bit heap.pages.bitmap 1))
free_page-first_of_word_example =
    free_page-first_of_word heap.pages.bitmap 1 1 heap-words (omega (arith, heap-words))

kmalloc-Cut_example :
    (r : ℕ × Heap) × (base : ℕ) × (kmalloc heap 40 ≡ some r) × Cut heap 1 2 40 r.0 r.1 base
kmalloc-Cut_example = kmalloc-Cut heap 1 2 40 heap-IsHeap heap-IsFirstFree (omega arith)

-- The heap after a block of 40 bytes.
abbrev heap_40 : Heap
heap_40 = record heap { next_address = 4236 }

block_40 : kmalloc heap 40 ≡ some (4196, heap_40)
unfolding kmalloc bump
block_40 = refl

kmalloc_disjoint_example :
    (b : ℕ) × (h'' : Heap) × (kmalloc heap_40 60 ≡ some (b, h''))
    × ((4196 + 40 ≤ b) ⊎ (b + 60 ≤ 4196))
kmalloc_disjoint_example =
    kmalloc_disjoint heap 1 2 40 4196 heap_40 2 60 heap-IsHeap heap-IsFirstFree (omega arith)
      (omega arith) block_40 heap-IsFirstFree

kmalloc_overruns_example :
    (r : ℕ × Heap) × (kmalloc heap 5000 ≡ some r)
    × (r.0 ≡ 2 * page_size)
    × (r.1.end_of_page ≡ 2 * page_size + page_size)
    × (r.1.end_of_page < r.0 + 5000)
    × ((q : ℕ) → q ≢ 2 → page_bit r.1.pages.bitmap q ≡ page_bit heap.pages.bitmap q)
kmalloc_overruns_example =
    kmalloc_overruns heap 1 2 5000 heap-IsHeap heap-IsFirstFree (omega arith) (omega arith)
