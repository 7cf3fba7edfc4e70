-- ===== src/Boot/Stack.antt =====
-- What the first loop of moveStack does to the words of the copied stack.
use myreallyoldkernel.Boot.{◌-w◌, relocate}
use myreallyoldkernel.Memory.{Memory, load32, store32}
use myreallyoldkernel.Memory.Laws.{load32-store32_self, load32-store32_ne}
use myreallyoldkernel.Paging.{◌+w◌}
use myreallyoldkernel.Prelude.{
  ℕ, zero, suc, ◌+◌, ◌-◌, ◌*◌, ◌^◌, ◌≤◌, ◌<◌, ◌≡◌, ◌⊎◌, inl, inr, refl, ap, ◌∙◌, arith, ◌&&◌, ltb,
  if◌then◌else◌, Bool-cases,
}

-- A word that points into the old stack moves with it.
abbrev pub relocated : ℕ → ℕ → ℕ → ℕ → ℕ
relocated old_esp old_start offset word =
    if ltb old_esp word && ltb word old_start then word +w offset else word

-- One round of the loop.
abbrev round : Memory → ℕ → ℕ → ℕ → ℕ → Memory
round m i old_esp old_start offset =
    if ltb old_esp (load32 m i) && ltb (load32 m i) old_start
    then store32 m i (load32 m i +w offset)
    else m

round-here :
    (m : Memory) (i old_esp old_start offset : ℕ)
    → load32 (round m i old_esp old_start offset) i
      ≡ relocated old_esp old_start offset (load32 m i)
round-here m i old_esp old_start offset =
    elim (Bool-cases (ltb old_esp (load32 m i) && ltb (load32 m i) old_start)) [
      | inl y ↦ rw y (load32-store32_self m i (load32 m i +w offset) (omega arith))
      | inr n ↦ rw n refl
    ]

round-other :
    (m : Memory) (i old_esp old_start offset b : ℕ)
    → (i + 4 ≤ b) ⊎ (b + 4 ≤ i)
    → load32 (round m i old_esp old_start offset) b ≡ load32 m b
round-other m i old_esp old_start offset b apart =
    elim (Bool-cases (ltb old_esp (load32 m i) && ltb (load32 m i) old_start)) [
      | inl y ↦ rw y (load32-store32_ne m i b (load32 m i +w offset) apart)
      | inr n ↦ rw n refl
    ]

-- The rounds go down: words above stay.
relocate-above :
    (n : ℕ) (m : Memory) (i old_esp old_start offset b : ℕ)
    → 4 * n ≤ i + 4
    → i < 2 ^ 32
    → i + 4 ≤ b
    → load32 (relocate n m i old_esp old_start offset) b ≡ load32 m b
unfolding relocate
relocate-above zero m i old_esp old_start offset b room low above = refl
relocate-above (suc zero) m i old_esp old_start offset b room low above =
    round-other m i old_esp old_start offset b (inl above)
relocate-above (suc (suc n)) m i old_esp old_start offset b room low above =
    let down : i -w 4 ≡ i - 4 = omega arith in
    let m' = round m i old_esp old_start offset in
    ap (λ (x : ℕ). load32 (relocate (suc n) m' x old_esp old_start offset) b) down
    ∙ relocate-above (suc n) m' (i - 4) old_esp old_start offset b (omega arith) (omega arith)
        (omega arith)
    ∙ round-other m i old_esp old_start offset b (inl above)

-- The `n` words at `i` and below it, down to a place in memory, after as many rounds of moveStack's loop
-- from `i` down: each word strictly between the old stack pointer and the old start of the stack
-- is moved by the offset, each other one is as it was.
pub relocate-words :
    (n k : ℕ) (m : Memory) (i old_esp old_start offset : ℕ)
    → 4 * n ≤ i + 4
    → i < 2 ^ 32
    → k < n
    → load32 (relocate n m i old_esp old_start offset) (i - 4 * k)
      ≡ relocated old_esp old_start offset (load32 m (i - 4 * k))
unfolding relocate
relocate-words zero k m i old_esp old_start offset room low inside = absurd (omega arith)
relocate-words (suc zero) zero m i old_esp old_start offset room low inside =
    let here : i - 4 * 0 ≡ i = omega arith in rw here (round-here m i old_esp old_start offset)
relocate-words (suc zero) (suc k) m i old_esp old_start offset room low inside =
    absurd (omega arith)
relocate-words (suc (suc n)) zero m i old_esp old_start offset room low inside =
    let here : i - 4 * 0 ≡ i = omega arith in
    let down : i -w 4 ≡ i - 4 = omega arith in
    let m' = round m i old_esp old_start offset in
    rw here (
      ap (λ (x : ℕ). load32 (relocate (suc n) m' x old_esp old_start offset) i) down
      ∙ relocate-above (suc n) m' (i - 4) old_esp old_start offset i (omega arith) (omega arith)
          (omega arith)
      ∙ round-here m i old_esp old_start offset)
relocate-words (suc (suc n)) (suc k) m i old_esp old_start offset room low inside =
    let down : i -w 4 ≡ i - 4 = omega arith in
    let at : i - 4 * suc k ≡ i - 4 - 4 * k = omega arith in
    let m' = round m i old_esp old_start offset in
    rw (at, down)
      (relocate-words (suc n) k m' (i - 4) old_esp old_start offset (omega arith) (omega arith)
          (omega arith)
        ∙ ap (relocated old_esp old_start offset)
            (round-other m i old_esp old_start offset (i - 4 - 4 * k) (inr (omega arith))))
