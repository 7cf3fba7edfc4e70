-- ===== src/Boot/Bitmap.antt =====
-- The bitmap with which generatePageTable starts, and the pages that are free in it.
use native.Mathlib.Nat.{pow-suc}
use myreallyoldkernel.Bits.{bit_set}
use myreallyoldkernel.Bits.Digits.{digit}
use myreallyoldkernel.Boot.{mark, zero_bytes, round_tables, fill_words, initial_bitmap}
use myreallyoldkernel.Paging.{Pages}
use myreallyoldkernel.Paging.Alloc.{Allocated, page_bit-set}
use myreallyoldkernel.Paging.Search.{page_bit, InMap, IsFirstFree}
use myreallyoldkernel.Prelude.{
  ℕ, zero, suc, ◌+◌, ◌-◌, ◌*◌, ◌/◌, ◌%◌, ◌^◌, ◌≤◌, ◌<◌, ◌≡◌, refl, ap, ◌∙◌, arith, false, some,
  List, [], ◌∷◌, ◌==◌, if◌then◌else◌, length, get_or, set, length-set, get_or-set_ne,
}

digit-multiple : (k q x : ℕ) → q < k → digit (x * 2 ^ k) q ≡ 0
unfolding digit
digit-multiple zero q x h = absurd (omega arith)
digit-multiple (suc k) zero x h =
    let e : x * 2 ^ suc k ≡ 2 * (x * 2 ^ k) = omega (arith, ap (λ (t : ℕ). x * t) (pow-suc 2 k)) in
    rw e (omega arith)
digit-multiple (suc k) (suc q) x h =
    let e : x * 2 ^ suc k ≡ 2 * (x * 2 ^ k) = omega (arith, ap (λ (t : ℕ). x * t) (pow-suc 2 k)) in
    let half : 2 * (x * 2 ^ k) / 2 ≡ x * 2 ^ k = omega arith in
    rw (e, half) (digit-multiple k q x (omega arith))

low_digits : (a q : ℕ) → a % 256 ≡ 0 → q < 8 → digit a q ≡ 0
low_digits a q h hq =
    let e : a ≡ a / 256 * 2 ^ 8 = omega arith in rw e (digit-multiple 8 q (a / 256) hq)

-- The first byte cleared, the first word is a multiple of 256.
zero_bytes-first : (n : ℕ) (bitmap : List ℕ) → 0 < n → get_or (zero_bytes n bitmap) 0 0 % 256 ≡ 0
unfolding zero_bytes
zero_bytes-first n [] h = refl
zero_bytes-first zero (word ∷ words) h = absurd (omega arith)
zero_bytes-first (suc zero) (word ∷ words) h = ground arith
zero_bytes-first (suc (suc zero)) (word ∷ words) h = ground arith
zero_bytes-first (suc (suc (suc zero))) (word ∷ words) h = ground arith
zero_bytes-first (suc (suc (suc (suc n)))) (word ∷ words) h = ground arith

zero_bytes-length : (n : ℕ) (bitmap : List ℕ) → length (zero_bytes n bitmap) ≡ length bitmap
unfolding zero_bytes
zero_bytes-length n [] = refl
zero_bytes-length n (word ∷ words) = ap suc (zero_bytes-length (n - 4) words)

fill_words-length : (n i : ℕ) (bitmap : List ℕ) → length (fill_words n i bitmap) ≡ length bitmap
unfolding fill_words
fill_words-length zero i bitmap = refl
fill_words-length (suc n) i bitmap =
    fill_words-length n (i + 1) (set bitmap i 0xFFFF_FFFF) ∙ length-set bitmap i 0xFFFF_FFFF

fill_words-below :
    (n i : ℕ) (bitmap : List ℕ) (k : ℕ)
    → k < i
    → get_or (fill_words n i bitmap) k 0 ≡ get_or bitmap k 0
unfolding fill_words
fill_words-below zero i bitmap k h = refl
fill_words-below (suc n) i bitmap k h =
    fill_words-below n (i + 1) (set bitmap i 0xFFFF_FFFF) k (omega arith)
    ∙ get_or-set_ne bitmap i k 0xFFFF_FFFF 0 (λ e. absurd (omega arith))

low_page :
    (cleared : List ℕ) (q : ℕ)
    → q < 8
    → get_or cleared 0 0 % 256 ≡ 0
    → page_bit (fill_words 11 5 cleared) q ≡ 0
unfolding page_bit
low_page cleared q h low =
    let word : q / 32 ≡ 0 = omega arith in
    let here : q % 32 ≡ q = omega arith in
    rw (word, here, fill_words-below 11 5 cleared 0 (omega arith))
      (low_digits (get_or cleared 0 0) q low h)

-- What the first pages are once the bitmap is set up: the first one is used, and the next seven free.
pub record IsInitial (bitmap : List ℕ) : Type 0 where
  pub words : length bitmap ≡ 1024
  pub low_pages : (q : ℕ) → q < 8 → page_bit bitmap q ≡ (if 0 == q then 1 else 0)

pub initial_bitmap-IsInitial :
    (bitmap : List ℕ) (num_tables : ℕ)
    → length bitmap ≡ 1024
    → 32 ≤ round_tables num_tables
    → (b : List ℕ) × (initial_bitmap bitmap num_tables ≡ some b) × IsInitial b
unfolding initial_bitmap mark
initial_bitmap-IsInitial bitmap num_tables words enough =
    let bytes = round_tables num_tables / 32 in
    let some_bytes : (bytes == 0) ≡ false = ground arith in
    let cleared = zero_bytes bytes bitmap in
    let filled = fill_words 11 5 cleared in
    let size : length filled ≡ 1024 =
      fill_words-length 11 5 cleared ∙ zero_bytes-length bytes bitmap ∙ words in
    let low =
      λ (q : ℕ) (h : q < 8). low_page cleared q h (zero_bytes-first bytes bitmap (omega arith)) in
    (
      mark filled 0,
      rw some_bytes refl,
      record {
        words = length-set filled 0 (bit_set (get_or filled 0 0) 0) ∙ size;
        low_pages = λ q h. page_bit-set filled 0 q (omega (arith, size)) ∙ rw (low q h) refl;
      },
    )

-- A page is taken and the next one is free: that is the next first one.
pub next_free :
    (s s' : Pages) (p a : ℕ)
    → IsFirstFree s.bitmap 0 p
    → Allocated s p a s'
    → InMap s.bitmap (p + 1)
    → page_bit s.bitmap (p + 1) ≡ 0
    → IsFirstFree s'.bitmap 0 (p + 1)
next_free s s' p a first got inside clear = record {
  free = record {
    in_map = omega (arith, got.same_length);
    clear = got.others (p + 1) (λ e. absurd (omega arith)) ∙ clear;
  };
  from = omega arith;
  taken = λ q lo hi. ground (arith, first.taken q, got.taken, got.others q);
}
