-- ===== src/Mapping/Prepare.antt =====
-- The pages that clonePageDirectory takes, and what its first steps leave.
use mathlib.Core.Path.{subst}
use myreallyoldkernel.Boot.Entries.{load32-same}
use myreallyoldkernel.Boot.Bitmap.{next_free}
use myreallyoldkernel.Mapping.{
  slot, entry_address, directory_index, table_for, link_entries, map_page, clone_page_directory,
}
use myreallyoldkernel.Memory.{Memory, kmemset, kmemcpy, load32}
use myreallyoldkernel.Memory.Laws.{IsBytes}
use myreallyoldkernel.Paging.{Pages, page_size, alloc_page}
use myreallyoldkernel.Paging.Alloc.{Allocated, alloc_page-first}
use myreallyoldkernel.Paging.Search.{page_bit, IsFirstFree}
use myreallyoldkernel.Prelude.{
  ℕ, ◌+◌, ◌*◌, ◌^◌, bit_and, ◌≤◌, ◌<◌, ◌≡◌, ◌⊎◌, refl, ap, sym, ◌∙◌, arith, some, length,
}
use myreallyoldkernel.Mapping.Copy.{
  Outside, cloned_entry, kept_outside, linked, no_stack, copied_word,
}

pub takes :
    (s : Pages) (p at : ℕ)
    → at ≡ p * page_size
    → length s.bitmap ≡ 1024
    → IsFirstFree s.bitmap 0 p
    → (s' : Pages) × (alloc_page s ≡ some (at, s')) × Allocated s p at s'
takes s p at e words first =
    let (r, got, did) = alloc_page-first s p words first in
    let here : r.0 ≡ at = did.address ∙ sym e in
    (r.1, got ∙ ap (λ (a : ℕ). some (a, r.1)) here, subst (λ (a : ℕ). Allocated s p a r.1) here did)

-- The stack's table and page, as clonePageDirectory finds them from a directory.
abbrev pub stack_table : Memory → ℕ → ℕ
stack_table m source = bit_and (load32 m (source + 4 * 896)) 0xFFFF_F000

abbrev pub old_stack : Memory → ℕ → ℕ
old_stack m source = bit_and (load32 m (stack_table m source)) 0xFFFF_F000

pub clone_runs :
    (s s1 s3 s5 : Pages) (kernel source new stack old : ℕ)
    → alloc_page s ≡ some (new, s1)
    → alloc_page (record s1 {
      memory = link_entries 1024 0 (kmemset s1.memory new 0 page_size) kernel source new;
    })
      ≡ some (stack, s3)
    → bit_and
        (load32 s3.memory (bit_and (load32 s3.memory (slot source 896)) 0xFFFF_F000))
        0xFFFF_F000
      ≡ old
    → map_page
        (record s3 { memory = kmemcpy s3.memory stack old page_size })
        new
        stack
        0xE000_0000
        0
        1
      ≡ some s5
    → clone_page_directory s kernel source ≡ some (new, s5)
unfolding clone_page_directory
clone_runs s s1 s3 s5 kernel source new stack old got1 got2 at mapped =
    rw (clone_page_directory, got1, got2, at, mapped) refl

-- The three pages that a clone takes are free and one behind the other, and the two directories, the
-- stack, its table and the table of the first 4 megabytes lie elsewhere.
pub record Room (s : Pages) (kernel source p : ℕ) : Type 0 where
  pub bytes : IsBytes s.memory
  pub words : length s.bitmap ≡ 1024
  pub first : IsFirstFree s.bitmap 0 p
  pub next : page_bit s.bitmap (p + 1) ≡ 0
  pub third : page_bit s.bitmap (p + 2) ≡ 0
  pub low : 1 ≤ p
  pub last : p + 2 < 32 * 1024
  pub kernel_out : Outside (p * 4096) kernel
  pub source_out : Outside (p * 4096) source
  pub table_out : Outside (p * 4096) (stack_table s.memory source)
  pub stack_out : Outside (p * 4096) (old_stack s.memory source)
  pub identity_out : Outside (p * 4096) (entry_address (load32 s.memory source))

-- The stack's page is found where the table and the directory are kept.
pub old_found :
    (m m3 : Memory) (new source : ℕ)
    → ((b : ℕ) → (b < new) ⊎ (new + 3 * 4096 ≤ b) → m3 b ≡ m b)
    → Outside new source
    → Outside new (stack_table m source)
    → bit_and (load32 m3 (bit_and (load32 m3 (slot source 896)) 0xFFFF_F000)) 0xFFFF_F000
      ≡ old_stack m source
old_found m m3 new source kept from_source from_table =
    let at : slot source 896 ≡ source + 4 * 896 = omega (arith, from_source) in
    let entry : load32 m3 (source + 4 * 896) ≡ load32 m (source + 4 * 896) =
      load32-same m m3 (source + 4 * 896)
        (λ i l. kept (source + 4 * 896 + i) (omega (arith, from_source))) in
    let table = stack_table m source in
    let page : load32 m3 table ≡ load32 m table =
      load32-same m m3 table (λ i l. kept (table + i) (omega (arith, from_table))) in
    ap (λ (a : ℕ). bit_and (load32 m3 (bit_and (load32 m3 a) 0xFFFF_F000)) 0xFFFF_F000) at
    ∙ ap (λ (e : ℕ). bit_and (load32 m3 (bit_and e 0xFFFF_F000)) 0xFFFF_F000) entry
    ∙ ap (λ (e : ℕ). bit_and e 0xFFFF_F000) page

pub found_table :
    (s4 s5 : Pages) (new at : ℕ)
    → new + 4096 ≤ 2 ^ 32
    → load32 s4.memory (new + 4 * 896) ≡ 0
    → alloc_page s4 ≡ some (at, s5)
    → table_for s4 (load32 s4.memory (slot new (directory_index 0xE000_0000))) ≡ some (at, s5)
unfolding table_for
found_table s4 s5 new at fits absent got =
    let here : slot new (directory_index 0xE000_0000) ≡ new + 4 * 896 = omega arith in
    ap (λ (a : ℕ). table_for s4 (load32 s4.memory a)) here
    ∙ ap (λ (e : ℕ). table_for s4 e) absent
    ∙ got

-- A call of clonePageDirectory up to mapPage: the memory that mapPage starts from.
pub record Prepared (s : Pages) (kernel source p : ℕ) : Type 0 where
  pub s4 : Pages
  pub s5 : Pages
  pub runs :
      (s' : Pages)
      → map_page s4 (p * 4096) (p * 4096 + 4096) 0xE000_0000 0 1 ≡ some s'
      → clone_page_directory s kernel source ≡ some (p * 4096, s')
  pub found :
      table_for s4 (load32 s4.memory (slot (p * 4096) (directory_index 0xE000_0000)))
      ≡ some (p * 4096 + 2 * 4096, s5)
  pub entries :
      (j : ℕ)
      → j < 1024
      → load32 s5.memory (p * 4096 + 4 * j) ≡ cloned_entry s.memory kernel source j
  pub stack :
      (w : ℕ)
      → w < 1024
      → load32 s5.memory (p * 4096 + 4096 + 4 * w)
        ≡ load32 s.memory (old_stack s.memory source + 4 * w)

pub prepare :
    (s : Pages) (kernel source p : ℕ) → Room s kernel source p → Prepared s kernel source p
prepare s kernel source p room =
    let new = p * 4096 in
    let old = old_stack s.memory source in
    let fits : new + 3 * 4096 ≤ 2 ^ 32 = omega (arith, room.last) in
    let (s1, got1, did1) = takes s p new refl room.words room.first in
    let first2 =
      next_free s s1 p new room.first did1 (omega (arith, room.words, room.last)) room.next in
    let blank = kmemset s1.memory new 0 page_size in
    let s2 : Pages = record s1 { memory = link_entries 1024 0 blank kernel source new } in
    let words2 = did1.same_length ∙ room.words in
    let (s3, got3, did3) = takes s2 (p + 1) (new + 4096) (omega arith) words2 first2 in
    let third : page_bit s2.bitmap (p + 1 + 1) ≡ 0 =
      did1.others (p + 1 + 1) (λ e. absurd (omega arith))
      ∙ ap (page_bit s.bitmap) (let e : p + 1 + 1 ≡ p + 2 = omega arith in e)
      ∙ room.third in
    let first3 =
      next_free s2 s3 (p + 1) (new + 4096) first2 did3 (omega (arith, words2, room.last)) third in
    let s4 : Pages = record s3 { memory = kmemcpy s3.memory (new + 4096) old page_size } in
    let words3 = did3.same_length ∙ words2 in
    let (s5, got5, did5) = takes s4 (p + 1 + 1) (new + 2 * 4096) (omega arith) words3 first3 in
    let kept =
      kept_outside s.memory s1.memory s3.memory s5.memory new kernel source old room.bytes fits
        did1.cleared did3.cleared did5.cleared room.kernel_out room.source_out room.stack_out in
    let at = old_found s.memory s3.memory new source kept room.source_out room.table_out in
    let absent =
      no_stack s.memory s1.memory s3.memory s5.memory new kernel source old room.bytes fits
        did1.cleared did3.cleared did5.cleared room.kernel_out room.source_out room.stack_out in
    record {
      s4 = s4;
      s5 = s5;
      runs =
          λ s' mapped. clone_runs s s1 s3 s' kernel source new (new + 4096) old got1 got3 at mapped;
      found = found_table s4 s5 new (new + 2 * 4096) (omega (arith, fits)) absent got5;
      entries =
          linked s.memory s1.memory s3.memory s5.memory new kernel source old room.bytes fits
            did1.cleared did3.cleared did5.cleared room.kernel_out room.source_out room.stack_out;
      stack =
          copied_word s.memory s1.memory s3.memory s5.memory new kernel source old room.bytes fits
            did1.cleared did3.cleared did5.cleared room.kernel_out room.source_out room.stack_out;
    }
