-- ===== src/Mapping/Clone.antt =====
-- Which entries of a directory its clone shares.
use myreallyoldkernel.Mapping.{slot, link_entry, link_entries}
use myreallyoldkernel.Mapping.Entries.{Apart}
use myreallyoldkernel.Memory.{Memory, load32, store32}
use myreallyoldkernel.Memory.Laws.{
  IsBytes, load32-IsBytes, store32-IsBytes, load32-store32_self, load32-store32_ne,
}
use myreallyoldkernel.Prelude.{
  ℕ, zero, suc, ◌+◌, ◌*◌, ◌^◌, ◌≤◌, ◌<◌, ◌≡◌, ◌⊎◌, inl, inr, arith, Bool, not, ◌&&◌, ltb, leb, ◌==◌,
  if◌then◌else◌, Bool-cases,
}

-- The entries of the source that the clone takes: present in both directories, and not the stack's.
abbrev pub shared : Memory → ℕ → ℕ → ℕ → Bool
shared m kernel source j =
    not (load32 m (source + 4 * j) == 0)
    && not (j == 896)
    && load32 m (kernel + 4 * j) == load32 m (source + 4 * j)

-- The new directory shares no byte with the two that are read.
pub record Directories (m : Memory) (kernel source new : ℕ) : Type 0 where
  pub bytes : IsBytes m
  pub kernel_page : kernel + 4096 ≤ 2 ^ 32
  pub source_page : source + 4096 ≤ 2 ^ 32
  pub new_page : new + 4096 ≤ 2 ^ 32
  pub from_kernel : Apart kernel new
  pub from_source : Apart source new

pub link_entry_lem :
    (m : Memory) (kernel source new i : ℕ)
    → Directories m kernel source new
    → i < 1024
    → link_entry m kernel source new i ≡ (
        if shared m kernel source i then store32 m (new + 4 * i) (load32 m (source + 4 * i)) else m)
unfolding link_entry
link_entry_lem m kernel source new i d h =
    let k : slot kernel i ≡ kernel + 4 * i = omega (arith, d.kernel_page) in
    let s : slot source i ≡ source + 4 * i = omega (arith, d.source_page) in
    let n : slot new i ≡ new + 4 * i = omega (arith, d.new_page) in rw (k, s, n) (ground arith)

-- One round: the entry itself, and every other word.
link_entry-here :
    (m : Memory) (kernel source new i : ℕ)
    → Directories m kernel source new
    → i < 1024
    → load32 (link_entry m kernel source new i) (new + 4 * i)
      ≡ (if shared m kernel source i then load32 m (source + 4 * i) else load32 m (new + 4 * i))
link_entry-here m kernel source new i d h = rw (link_entry_lem m kernel source new i d h) (
    ground (
      arith,
      load32-store32_self m (new + 4 * i) (load32 m (source + 4 * i))
          (load32-IsBytes m (source + 4 * i) d.bytes),
    ))

link_entry-other :
    (m : Memory) (kernel source new i b : ℕ)
    → Directories m kernel source new
    → i < 1024
    → (new + 4 * i + 4 ≤ b) ⊎ (b + 4 ≤ new + 4 * i)
    → load32 (link_entry m kernel source new i) b ≡ load32 m b
link_entry-other m kernel source new i b d h apart =
    rw (link_entry_lem m kernel source new i d h)
      (ground (arith, load32-store32_ne m (new + 4 * i) b (load32 m (source + 4 * i)) apart))

pub link_entry-Directories :
    (m : Memory) (kernel source new i : ℕ)
    → Directories m kernel source new
    → i < 1024
    → Directories (link_entry m kernel source new i) kernel source new
link_entry-Directories m kernel source new i d h = record {
  bytes =
      rw (link_entry_lem m kernel source new i d h) (elim (Bool-cases (shared m kernel source i)) [
        | inl y ↦ rw y (store32-IsBytes m (new + 4 * i) (load32 m (source + 4 * i)) d.bytes)
        | inr n ↦ rw n d.bytes
      ]);
  kernel_page = d.kernel_page;
  source_page = d.source_page;
  new_page = d.new_page;
  from_kernel = d.from_kernel;
  from_source = d.from_source;
}

-- The two directories that are read stay as they are.
shared-link_entry :
    (m : Memory) (kernel source new i j : ℕ)
    → Directories m kernel source new
    → i < 1024
    → j < 1024
    → (load32 (link_entry m kernel source new i) (source + 4 * j) ≡ load32 m (source + 4 * j))
      × (load32 (link_entry m kernel source new i) (kernel + 4 * j) ≡ load32 m (kernel + 4 * j))
shared-link_entry m kernel source new i j d hi hj = (
  link_entry-other m kernel source new i (source + 4 * j) d hi (omega (arith, d.from_source)),
  link_entry-other m kernel source new i (kernel + 4 * j) d hi (omega (arith, d.from_kernel)),
)

-- The rounds from index `i` on, as many as `n` and within the directory, where the new directory
-- shares no byte with the kernel's and the source: an entry of the new one that they reach holds the
-- source's entry where that is present, the same as the kernel's and not the stack's; any other entry
-- is as before.
pub link_entries-reads :
    (n i : ℕ) (m : Memory) (kernel source new j : ℕ)
    → Directories m kernel source new
    → i + n ≤ 1024
    → j < 1024
    → load32 (link_entries n i m kernel source new) (new + 4 * j) ≡ (
        if leb i j && ltb j (i + n) && shared m kernel source j
        then load32 m (source + 4 * j)
        else load32 m (new + 4 * j))
unfolding link_entries
link_entries-reads zero i m kernel source new j d hn hj = ground arith
link_entries-reads (suc n) i m kernel source new j d hn hj =
    let m' = link_entry m kernel source new i in
    let rest =
      link_entries-reads n (i + 1) m' kernel source new j
        (link_entry-Directories m kernel source new i d (omega arith)) (omega arith) hj in
    let (same_source, same_kernel) = shared-link_entry m kernel source new i j d (omega arith) hj in
    ground (
      arith,
      rest,
      same_source,
      same_kernel,
      link_entry-here m kernel source new i d,
      link_entry-other m kernel source new i (new + 4 * j) d,
    )
