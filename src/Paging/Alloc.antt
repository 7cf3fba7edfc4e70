-- ===== src/Paging/Alloc.antt =====
-- allocPage hands out the first free page, and nothing else changes.
use native.Mathlib.Decide.{ℕ_discrete}
use myreallyoldkernel.Bits.{bit_set}
use myreallyoldkernel.Bits.Laws.{digit-bit_set}
use myreallyoldkernel.Memory.Laws.{kmemset-reads}
use myreallyoldkernel.Paging.{Pages, page_size, past_end, scan, scan_fuel, take_page, alloc_page}
use myreallyoldkernel.Paging.Search.{page_bit, InMap, IsFirstFree, scan-found, scan-past_end}
use myreallyoldkernel.Prelude.{
  ℕ, ◌+◌, ◌*◌, ◌/◌, ◌%◌, ◌^◌, ◌≤◌, ◌<◌, ◌≡◌, ◌≢◌, arith, ◌&&◌, none, some, List, ltb, leb, ◌==◌,
  if◌then◌else◌, get_or, set, length, get_or-set_self, get_or-set_ne, length-set,
}

-- A word of the bitmap with one bit written: what page each bit then stands for.
module _ (bitmap : List ℕ) (p q : ℕ) (inside : InMap bitmap p) where
  pub page_bit-set :
      page_bit (set bitmap (p / 32) (bit_set (get_or bitmap (p / 32) 0) (p % 32))) q
      ≡ (if p == q then 1 else page_bit bitmap q)
  unfolding page_bit
  page_bit-set = elim (ℕ_discrete (p / 32) (q / 32)) [
    | yes e ↦ ground (
      arith,
      get_or-set_self bitmap (p / 32) (bit_set (get_or bitmap (p / 32) 0) (p % 32)) 0,
      digit-bit_set (get_or bitmap (p / 32) 0) (p % 32) (q % 32),
    )
    | no n ↦ ground (
      arith,
      get_or-set_ne bitmap (p / 32) (q / 32) (bit_set (get_or bitmap (p / 32) 0) (p % 32)) 0 n,
    )
  ]

-- What a call that returns `a` has done: `p` is the page it took.
pub record Allocated (s : Pages) (p a : ℕ) (s' : Pages) : Type 0 where
  pub address : a ≡ p * page_size
  pub in_range : a + page_size ≤ 2 ^ 27
  pub same_length : length s'.bitmap ≡ length s.bitmap
  pub taken : page_bit s'.bitmap p ≡ 1
  pub others : (q : ℕ) → q ≢ p → page_bit s'.bitmap q ≡ page_bit s.bitmap q
  pub cleared : (b : ℕ) → s'.memory b ≡ (if leb a b && ltb b (a + page_size) then 0 else s.memory b)

take_page-Allocated :
    (s : Pages) (p : ℕ)
    → length s.bitmap ≡ 1024
    → InMap s.bitmap p
    → Allocated s p (take_page s p).0 (take_page s p).1
unfolding take_page
take_page-Allocated s p len inside =
    let exact : p * page_size % 2 ^ 32 ≡ p * page_size = omega arith in
    record {
      address = exact;
      in_range = omega arith;
      same_length = length-set s.bitmap (p / 32) (bit_set (get_or s.bitmap (p / 32) 0) (p % 32));
      taken = ground (arith, page_bit-set s.bitmap p p inside);
      others = λ q ne. ground (arith, page_bit-set s.bitmap p q inside);
      cleared = λ b. ground (arith, kmemset-reads s.memory (p * page_size % 2 ^ 32) 0 page_size b);
    }

-- With a bitmap of 1024 words and `p` its first free page, allocPage returns the address of `p`,
-- marks `p` and no other page as used, and clears the page's bytes and no others.
pub alloc_page-first :
    (s : Pages) (p : ℕ)
    → length s.bitmap ≡ 1024
    → IsFirstFree s.bitmap 0 p
    → (r : ℕ × Pages) × (alloc_page s ≡ some r) × Allocated s p r.0 r.1
unfolding alloc_page
alloc_page-first s p len first =
    let end : p < scan_fuel + 0 = omega (arith, first.free.in_map) in
    (
      take_page s p,
      rw (scan-found scan_fuel s.bitmap 0 p (omega arith) first end, alloc_page),
      take_page-Allocated s p len first.free.in_map,
    )

-- With a bitmap of 1024 words and every page used, the scan of allocPage runs off the array.
pub alloc_page-full :
    (s : Pages)
    → length s.bitmap ≡ 1024
    → ((q : ℕ) → InMap s.bitmap q → page_bit s.bitmap q ≡ 1)
    → (scan scan_fuel s.bitmap 0 ≡ past_end) × (alloc_page s ≡ none)
unfolding alloc_page
alloc_page-full s len full =
    let end : scan scan_fuel s.bitmap 0 ≡ past_end =
      scan-past_end scan_fuel s.bitmap 0 (omega arith) full (omega arith) (omega arith) in
    (end, rw (end, alloc_page))
