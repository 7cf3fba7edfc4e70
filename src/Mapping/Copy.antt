-- ===== src/Mapping/Copy.antt =====
-- The memory of clonePageDirectory, step by step, up to its call of mapPage.
use myreallyoldkernel.Boot.Entries.{load32-zeros, load32-same}
use myreallyoldkernel.Mapping.{link_entry, link_entries}
use myreallyoldkernel.Mapping.Clone.{
  shared, Directories, link_entry_lem, link_entry-Directories, link_entries-reads,
}
use myreallyoldkernel.Memory.{Memory, kmemset, kmemcpy, load32, store32, store8}
use myreallyoldkernel.Memory.Laws.{IsBytes, kmemset-reads, kmemcpy-reads}
use myreallyoldkernel.Paging.{page_size}
use myreallyoldkernel.Prelude.{
  ℕ, zero, suc, ◌+◌, ◌-◌, ◌*◌, ◌^◌, ◌≤◌, ◌<◌, ◌≡◌, ◌⊎◌, inl, inr, refl, ap, sym, ◌∙◌, arith, ◌&&◌,
  ltb, leb, if◌then◌else◌, Bool-cases,
}

-- Four bytes at one place, the same as at another.
load32-same_at :
    (m m' : Memory) (a b : ℕ)
    → ((i : ℕ) → i < 4 → m' (b + i) ≡ m (a + i))
    → load32 m' b ≡ load32 m a
unfolding load32
load32-same_at m m' a b same = omega (
  arith,
  same 0 (omega arith),
  same 1 (omega arith),
  same 2 (omega arith),
  same 3 (omega arith),
  ap m (let e : a + 0 ≡ a = omega arith in e),
  ap m' (let e : b + 0 ≡ b = omega arith in e),
)

-- A word stored away from a byte.
store32-away : (m : Memory) (a v b : ℕ) → (b < a) ⊎ (a + 4 ≤ b) → store32 m a v b ≡ m b
unfolding store32 store8
store32-away m a v b h = ground arith

-- The loop writes to the new directory only.
link_entries-outside :
    (n i : ℕ) (m : Memory) (kernel source new b : ℕ)
    → Directories m kernel source new
    → i + n ≤ 1024
    → (b < new) ⊎ (new + 4096 ≤ b)
    → link_entries n i m kernel source new b ≡ m b
unfolding link_entries
link_entries-outside zero i m kernel source new b d hn h = refl
link_entries-outside (suc n) i m kernel source new b d hn h =
    let m' = link_entry m kernel source new i in
    let here : m' b ≡ m b =
      rw (link_entry_lem m kernel source new i d (omega arith))
        (elim (Bool-cases (shared m kernel source i)) [
          | inl y ↦ rw y (store32-away m (new + 4 * i) (load32 m (source + 4 * i)) b (omega arith))
          | inr n' ↦ rw n' refl
        ]) in
    link_entries-outside n (i + 1) m' kernel source new b
      (link_entry-Directories m kernel source new i d (omega arith)) (omega arith) h
    ∙ here

-- A page away from the three that start at `new`.
abbrev pub Outside : ℕ → ℕ → Type 0
Outside new a = ((a + 4096 ≤ new) ⊎ (new + 3 * 4096 ≤ a)) × (a + 4096 ≤ 2 ^ 32)

-- The bytes of a page that a call of allocPage leaves.
abbrev Cleared : Memory → Memory → ℕ → Type 0
Cleared m m' at = (b : ℕ) → m' b ≡ (if leb at b && ltb b (at + 4096) then 0 else m b)

-- The entry that the clone has for entry `j`.
abbrev pub cloned_entry : Memory → ℕ → ℕ → ℕ → ℕ
cloned_entry m kernel source j = if shared m kernel source j then load32 m (source + 4 * j) else 0

-- The memory of clonePageDirectory before mapPage, step by step.
module _ (m m1 m3 m5 : Memory) (new kernel source old : ℕ) (bytes : IsBytes m)
    (room : new + 3 * 4096 ≤ 2 ^ 32) (cleared1 : Cleared m m1 new)
    (cleared3 : Cleared
      (link_entries 1024 0 (kmemset m1 new 0 page_size) kernel source new)
      m3
      (new + 4096))
    (cleared5 : Cleared (kmemcpy m3 (new + 4096) old page_size) m5 (new + 2 * 4096))
    (k_out : Outside new kernel) (s_out : Outside new source) (old_out : Outside new old) where
  abbrev pub blank : Memory
  blank = kmemset m1 new 0 page_size

  blank-reads : (b : ℕ) → blank b ≡ (if leb new b && ltb b (new + 4096) then 0 else m b)
  blank-reads b = ground (arith, kmemset-reads m1 new 0 page_size b, cleared1 b)

  blank-Directories : Directories blank kernel source new
  blank-Directories = record {
    bytes = λ b. ground (arith, blank-reads b, bytes b);
    kernel_page = k_out.1;
    source_page = s_out.1;
    new_page = omega (arith, room);
    from_kernel = omega (arith, k_out);
    from_source = omega (arith, s_out);
  }

  pub kept_outside : (b : ℕ) → (b < new) ⊎ (new + 3 * 4096 ≤ b) → m3 b ≡ m b
  kept_outside b h = ground (
    arith,
    cleared3 b,
    link_entries-outside 1024 0 blank kernel source new b blank-Directories (omega arith)
        (omega arith),
    blank-reads b,
  )

  copied : (o : ℕ) → o < 4096 → m5 (new + 4096 + o) ≡ m (old + o)
  copied o h =
      let b = new + 4096 + o in
      let from : old + (b - (new + 4096)) ≡ old + o = omega arith in
      let moved : kmemcpy m3 (new + 4096) old page_size b ≡ m3 (old + o) = ground (
        arith,
        kmemcpy-reads m3 (new + 4096) old page_size b (omega arith) (omega arith)
            (omega (arith, old_out)) (omega (arith, old_out)),
        ap m3 from,
      ) in
      ground (arith, cleared5 b, moved, kept_outside (old + o) (omega (arith, old_out)))

  late_bytes :
      (b : ℕ) → new ≤ b → b < new + 4096 → m5 b ≡ link_entries 1024 0 blank kernel source new b
  late_bytes b lo hi = ground (
    arith,
    cleared5 b,
    kmemcpy-reads m3 (new + 4096) old page_size b (omega arith) (omega arith)
        (omega (arith, old_out)) (omega (arith, old_out)),
    cleared3 b,
  )

  pub linked : (j : ℕ) → j < 1024 → load32 m5 (new + 4 * j) ≡ cloned_entry m kernel source j
  linked j h =
      let D = blank-Directories in
      let m2 = link_entries 1024 0 blank kernel source new in
      let late : load32 m5 (new + 4 * j) ≡ load32 m2 (new + 4 * j) =
        load32-same m2 m5 (new + 4 * j)
          (λ i l. late_bytes (new + 4 * j + i) (omega arith) (omega arith)) in
      let away = λ (a : ℕ) (out : Outside new a).
        load32-same m blank (a + 4 * j) (λ i l. ground (arith, blank-reads (a + 4 * j + i), out)) in
      let zero_before : load32 blank (new + 4 * j) ≡ 0 =
        load32-zeros blank (new + 4 * j) (λ i l. ground (arith, blank-reads (new + 4 * j + i))) in
      ground (
        arith,
        late,
        link_entries-reads 1024 0 blank kernel source new j D (omega arith) h,
        away source s_out,
        away kernel k_out,
        zero_before,
      )

  -- What mapPage finds in the directory for the stack's address.
  pub no_stack : load32 (kmemcpy m3 (new + 4096) old page_size) (new + 4 * 896) ≡ 0
  no_stack =
      let m4 = kmemcpy m3 (new + 4096) old page_size in
      let same : load32 m5 (new + 4 * 896) ≡ load32 m4 (new + 4 * 896) =
        load32-same m4 m5 (new + 4 * 896) (λ i l. ground (arith, cleared5 (new + 4 * 896 + i))) in
      ground (arith, same, linked 896 (omega arith))

  pub copied_word : (w : ℕ) → w < 1024 → load32 m5 (new + 4096 + 4 * w) ≡ load32 m (old + 4 * w)
  copied_word w h = load32-same_at m m5 (old + 4 * w) (new + 4096 + 4 * w) (λ i l.
      let from : new + 4096 + (4 * w + i) ≡ new + 4096 + 4 * w + i = omega arith in
      let to : old + (4 * w + i) ≡ old + 4 * w + i = omega arith in
      sym (ap m5 from) ∙ copied (4 * w + i) (omega arith) ∙ ap m to)
