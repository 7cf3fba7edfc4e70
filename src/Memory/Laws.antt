-- ===== src/Memory/Laws.antt =====
-- What the copy loops of memory.asm leave in memory, and words stored and loaded back.
use myreallyoldkernel.Memory.{
  Memory, store8, next, set_data, kmemset, move_data, kmemcpy, load32, store32,
}
use myreallyoldkernel.Prelude.{
  ℕ, zero, suc, ◌+◌, ◌-◌, ◌%◌, ◌^◌, ◌≤◌, ◌<◌, ◌≡◌, refl, ap, ◌⊎◌, inl, inr, arith, ◌&&◌, ltb, leb,
  if◌then◌else◌,
}

next-cases : (a n : ℕ) → a + suc n ≤ 2 ^ 32 → (n ≡ 0) ⊎ (next a ≡ a + 1)
next-cases a zero h = inl refl
next-cases a (suc n) h = inr (omega arith)

set_data-reads :
    (n : ℕ) (m : Memory) (dst v b : ℕ)
    → dst + n ≤ 2 ^ 32
    → set_data n m dst v b ≡ (if leb dst b && ltb b (dst + n) then v else m b)
unfolding set_data store8
set_data-reads zero m dst v b h = ground arith
set_data-reads (suc n) m dst v b h = elim (next-cases dst n h) [
  | inl e ↦ ground (arith, e)
  | inr e ↦ ground (arith, e, set_data-reads n (store8 m dst v) (next dst) v b)
]

-- For a positive count that stays below 2 ^ 32, kmemset writes the low byte of its value to each
-- byte of the block and to no other.
pub kmemset-reads :
    (m : Memory) (dst v count b : ℕ)
    → 0 < count
    → dst + count ≤ 2 ^ 32
    → kmemset m dst v count b ≡ (if leb dst b && ltb b (dst + count) then v % 256 else m b)
unfolding kmemset
kmemset-reads m dst v count b pos fits = ground (arith, set_data-reads count m dst (v % 256) b fits)

-- Forwards copying is right where the destination does not start inside the source.
abbrev pub CopiesForwards : ℕ → ℕ → ℕ → Type 0
CopiesForwards dst src n = (dst ≤ src) ⊎ (src + n ≤ dst)

shifted : (s d b : ℕ) → d < b → s + 1 + (b - (d + 1)) ≡ s + (b - d)
shifted s d b h = omega arith

move_data-reads :
    (n : ℕ) (m : Memory) (dst src b : ℕ)
    → dst + n ≤ 2 ^ 32
    → src + n ≤ 2 ^ 32
    → CopiesForwards dst src n
    → move_data n m dst src b ≡ (if leb dst b && ltb b (dst + n) then m (src + (b - dst)) else m b)
unfolding move_data store8
move_data-reads zero m dst src b hd hs apart = ground arith
move_data-reads (suc n) m dst src b hd hs apart = ground (
  arith,
  next-cases dst n hd,
  next-cases src n hs,
  move_data-reads n (store8 m dst (m src)) (next dst) (next src) b,
  λ (h : dst < b). ap m (shifted src dst b h),
)

-- For a positive count, blocks below 2 ^ 32 and a destination that does not start inside the
-- source, kmemcpy leaves the source's old bytes in the destination and changes no other byte.
pub kmemcpy-reads :
    (m : Memory) (dst src count b : ℕ)
    → 0 < count
    → dst + count ≤ 2 ^ 32
    → src + count ≤ 2 ^ 32
    → CopiesForwards dst src count
    → kmemcpy m dst src count b
      ≡ (if leb dst b && ltb b (dst + count) then m (src + (b - dst)) else m b)
unfolding kmemcpy
kmemcpy-reads m dst src count b pos hd hs apart =
    ground (arith, move_data-reads count m dst src b hd hs apart)

abbrev pub IsBytes : Memory → Type 0
IsBytes m = (a : ℕ) → m a < 256

pub load32-store32_self : (m : Memory) (a v : ℕ) → v < 2 ^ 32 → load32 (store32 m a v) a ≡ v
unfolding load32 store32
load32-store32_self m a v h = ground arith

pub load32-store32_ne :
    (m : Memory) (a b v : ℕ) → (a + 4 ≤ b) ⊎ (b + 4 ≤ a) → load32 (store32 m a v) b ≡ load32 m b
unfolding load32 store32
load32-store32_ne m a b v h = ground arith

pub load32-IsBytes : (m : Memory) (a : ℕ) → IsBytes m → load32 m a < 2 ^ 32
unfolding load32
load32-IsBytes m a bytes = omega (arith, bytes a, bytes (a + 1), bytes (a + 2), bytes (a + 3))

pub store32-IsBytes : (m : Memory) (a v : ℕ) → IsBytes m → IsBytes (store32 m a v)
unfolding store32 store8
store32-IsBytes m a v bytes = λ b. ground (arith, bytes b)
