-- ===== src/Boot/Entries.antt =====
-- What the loops of generatePageTable leave in the directory and in the table.
use myreallyoldkernel.Boot.{identity_entries, enter_table}
use myreallyoldkernel.Mapping.Flags.{bit_or_three}
use myreallyoldkernel.Memory.{Memory, load32, store32}
use myreallyoldkernel.Memory.Laws.{load32-store32_self, load32-store32_ne}
use myreallyoldkernel.Paging.{◌+w◌}
use myreallyoldkernel.Prelude.{
  ℕ, zero, suc, ◌+◌, ◌*◌, ◌/◌, ◌%◌, ◌^◌, ◌≤◌, ◌<◌, ◌≡◌, refl, ap, ◌∙◌, arith, bit_or, ◌&&◌, ◌⊎◌,
  ltb, leb, ◌==◌, if◌then◌else◌,
}

entry_value : (j : ℕ) → bit_or (j * 0x1000) 3 ≡ j * 4096 + 3
entry_value j =
    let e : j * 0x1000 ≡ 4 * (j * 1024) = omega arith in
    rw e (omega (arith, bit_or_three (j * 1024)))

-- The rounds from `j` on write the entries that they reach, and no other.
pub identity_entries-reads :
    (n j : ℕ) (m : Memory) (table k : ℕ)
    → table + 4096 ≤ 2 ^ 32
    → j + n ≤ 1024
    → k < 1024
    → load32 (identity_entries n j m table) (table + 4 * k)
      ≡ (if leb j k && ltb k (j + n) then k * 4096 + 3 else load32 m (table + 4 * k))
unfolding identity_entries
identity_entries-reads zero j m table k fits h hk = ground arith
identity_entries-reads (suc n) j m table k fits h hk =
    let here : table +w 4 * j ≡ table + 4 * j = omega arith in
    let rest =
      identity_entries-reads n (j + 1) (store32 m (table + 4 * j) (j * 4096 + 3)) table k fits
        (omega arith) hk in
    rw (here, entry_value j)
      (ground (
        arith,
        rest,
        load32-store32_self m (table + 4 * j) (j * 4096 + 3),
        load32-store32_ne m (table + 4 * j) (table + 4 * k) (j * 4096 + 3),
      ))

pub identity_entries-other :
    (n j : ℕ) (m : Memory) (table b : ℕ)
    → table + 4096 ≤ 2 ^ 32
    → j + n ≤ 1024
    → (b + 4 ≤ table) ⊎ (table + 4096 ≤ b)
    → load32 (identity_entries n j m table) b ≡ load32 m b
unfolding identity_entries
identity_entries-other zero j m table b fits h apart = refl
identity_entries-other (suc n) j m table b fits h apart =
    let here : table +w 4 * j ≡ table + 4 * j = omega arith in
    rw (here, entry_value j)
      (identity_entries-other n (j + 1) (store32 m (table + 4 * j) (j * 4096 + 3)) table b fits
          (omega arith) apart
        ∙ load32-store32_ne m (table + 4 * j) b (j * 4096 + 3) (ground arith))

-- A word of a block of zeros.
pub load32-zeros : (m : Memory) (b : ℕ) → ((i : ℕ) → i < 4 → m (b + i) ≡ 0) → load32 m b ≡ 0
unfolding load32
load32-zeros m b z = omega (
  arith,
  z 0 (omega arith),
  z 1 (omega arith),
  z 2 (omega arith),
  z 3 (omega arith),
  ap m (let e : b + 0 ≡ b = omega arith in e),
)

pub load32-same :
    (m m' : Memory) (b : ℕ) → ((i : ℕ) → i < 4 → m' (b + i) ≡ m (b + i)) → load32 m' b ≡ load32 m b
unfolding load32
load32-same m m' b z = omega (
  arith,
  z 0 (omega arith),
  z 1 (omega arith),
  z 2 (omega arith),
  z 3 (omega arith),
  ap m (let e : b + 0 ≡ b = omega arith in e),
  ap m' (let e : b + 0 ≡ b = omega arith in e),
)

-- The two words that enter_table writes at the directory's start come to one.
pub enter_table-reads :
    (m : Memory) (directory table b : ℕ)
    → table % 4096 ≡ 0
    → table + 4096 ≤ 2 ^ 32
    → (b ≡ directory) ⊎ (directory + 4 ≤ b) ⊎ (b + 4 ≤ directory)
    → load32 (enter_table m directory table) b ≡ (if b == directory then table + 3 else load32 m b)
unfolding enter_table
enter_table-reads m directory table b aligned fits where_b =
    let e : table ≡ 4 * (table / 4) = omega arith in
    let flagged : bit_or table 3 ≡ table + 3 = rw e (bit_or_three (table / 4)) in
    let first = load32-store32_self m directory table (omega arith) in
    rw (first, flagged)
      (ground (
        arith,
        load32-store32_self (store32 m directory table) directory (table + 3),
        load32-store32_ne (store32 m directory table) directory b (table + 3),
        load32-store32_ne m directory b table,
      ))
