-- ===== src/Paging/Free.antt =====
-- Which bit freePage clears.
use myreallyoldkernel.Bits.{bit_clear, shift_count}
use myreallyoldkernel.Bits.Laws.{digit-bit_clear}
use myreallyoldkernel.Paging.{page_size, free_page}
use myreallyoldkernel.Paging.Search.{page_bit, InMap}
use native.Mathlib.Decide.{ℕ_discrete}
use myreallyoldkernel.Prelude.{
  ℕ, ◌+◌, ◌*◌, ◌/◌, ◌%◌, ◌^◌, ◌≡◌, arith, some, List, ◌==◌, if◌then◌else◌, get_or, set, length,
  get_or-set_self, get_or-set_ne, get_elem?-eq-get_or,
}

-- The one round of a call for one page.
free_page_one :
    (bitmap : List ℕ) (p : ℕ)
    → length bitmap ≡ 1024
    → InMap bitmap p
    → free_page (p * page_size) 1 bitmap
      ≡ some
          (set bitmap (p / 32) (bit_clear (get_or bitmap (p / 32) 0) (p * page_size % (4096 * 32))))
unfolding free_page
free_page_one bitmap p words inside =
    let exact : (p * page_size + 0) % 2 ^ 32 ≡ p * page_size = omega arith in
    let word : p * page_size / 4096 / 32 ≡ p / 32 = omega arith in
    ground (arith, get_elem?-eq-get_or bitmap (p / 32) 0)

-- freePage for the one page at the address of `p`, in a bitmap of 1024 words, frees the first page
-- of the 32 that share the word of `p`, and leaves every other page as it was: also `p`, unless
-- `p` is that first page.
pub free_page-first_of_word :
    (bitmap : List ℕ) (p q : ℕ)
    → length bitmap ≡ 1024
    → InMap bitmap p
    → (after : List ℕ) × (free_page (p * page_size) 1 bitmap ≡ some after)
      × (page_bit after q ≡ (if q == p / 32 * 32 then 0 else page_bit bitmap q))
unfolding page_bit
free_page-first_of_word bitmap p q words inside =
    let bit = p * page_size % (4096 * 32) in
    let lowest : shift_count bit ≡ 0 = omega arith in
    let w = bit_clear (get_or bitmap (p / 32) 0) bit in
    (
      set bitmap (p / 32) w,
      free_page_one bitmap p words inside,
      elim (ℕ_discrete (p / 32) (q / 32)) [
        | yes e ↦ ground (
          arith,
          get_or-set_self bitmap (p / 32) w 0,
          digit-bit_clear (get_or bitmap (p / 32) 0) bit (q % 32),
        )
        | no n ↦ ground (arith, get_or-set_ne bitmap (p / 32) (q / 32) w 0 n)
      ],
    )
