-- ===== src/Ramfs/Make.antt =====
-- mkFile and mkDir: the path of what they make names it, and every other path names what it named.
use mathlib.Core.Path.{subst}
use myreallyoldkernel.Paging.{Heap, kmalloc}
use myreallyoldkernel.Prelude.{
  ℕ, suc, ◌≡◌, ◌≢◌, ◌⊎◌, inl, inr, refl, sym, ap, ◌∙◌, arith, true, false, some, List, [], ◌∷◌,
  ◌++◌,
}
use myreallyoldkernel.Ramfs.{DirEntry, Ramfs, end_mark, entry_size, store_entry, mk_file}
use myreallyoldkernel.Ramfs.Find.{find_dir-Steps}
use myreallyoldkernel.Ramfs.Grow.{store_entry_self, store_entry_ne, Leads-more}
use myreallyoldkernel.Ramfs.Place.{
  Place, IsNew, append_runs, still-Lacks, grown, Steps-grown, Named-grown, new_entry_kept,
  grown-next, grown-extent,
}
use myreallyoldkernel.Ramfs.Tree.{path_of, Walks, Closed}
use myreallyoldkernel.Vfs.{Text}

-- An address in use is none of the new ones.
pub apart : (In : ℕ → Type 0) (new a : ℕ) → IsNew In new → In a → a ≢ new
apart In new a is_new inside e = is_new.unused (subst In e inside)

-- The struct that mkFile sets.
abbrev file_entry : ℕ → Text → DirEntry
file_entry extent name = record { next_dir = end_mark; extent = extent; name = name; file = 1 }

-- mkFile in a directory without an entry of that name, where kmalloc has the three blocks: the path of
-- the new file names the struct that kmalloc returned, with the name and the block of 2048 bytes,
-- every path that named something names the same, and no pointer leaves the entries in use.
pub mk_file-Walks :
    (walk : ℕ) (s : Ramfs) (names : List Text) (name : Text) (In : ℕ → Type 0)
    (block new extent : ℕ) (heap1 heap2 heap3 : Heap)
    → Place walk s names name In
    → kmalloc s.heap 25 ≡ some (block, heap1)
    → kmalloc heap1 entry_size ≡ some (new, heap2)
    → kmalloc heap2 2048 ≡ some (extent, heap3)
    → IsNew In new
    → (s' : Ramfs) × (mk_file walk s (path_of names) name ≡ some s')
      × Walks walk s'.entries (names ++ name ∷ []) s'.root_dir new
      × (s'.entries new ≡ record { next_dir = end_mark; extent = extent; name = name; file = 1 })
      × ((path : List Text) (end : ℕ)
          → Walks walk s.entries path s.root_dir end
          → Walks walk s'.entries path s'.root_dir end)
      × Closed s'.entries s'.root_dir (λ a. In a ⊎ (a ≡ new))
      × (s'.heap ≡ heap3)
unfolding mk_file
mk_file-Walks walk s names name In block new extent heap1 heap2 heap3 place got1 got2 got3 is_new =
    let entry = file_entry extent name in
    let entries = store_entry s.entries new entry in
    let here = store_entry_self s.entries new entry in
    let agree : (a : ℕ) → In a → entries a ≡ s.entries a =
      λ a i. store_entry_ne s.entries new a entry (apart In new a is_new i) in
    let named : (entries new).name ≡ name = ap (λ (e : DirEntry). e.name) here in
    let ends : (entries new).next_dir ≡ end_mark = ap (λ (e : DirEntry). e.next_dir) here in
    let after = grown walk s names name In place entries new agree is_new named ends in
    let kept =
      new_entry_kept walk s names name In place entries new agree is_new named ends ∙ here in
    let finds =
      find_dir-Steps false walk s names place.d block heap1 place.are_names place.leads got1 in
    let steps = Steps-grown walk s names name In place entries new agree is_new named ends in
    let found = Named-grown walk s names name In place entries new agree is_new named ends in
    let linked =
      append_runs walk (record s { heap = heap3; entries = entries }) name place.last place.n
        place.d new (omega (arith, place.near))
        (still-Lacks walk s names name In place entries new agree is_new named ends) in
    (
      record s { heap = heap3; entries = after },
      rw (finds, mk_file, got2, got3) linked,
      Leads-more true walk after names (name ∷ []) s.root_dir place.d new
          (steps false names place.d place.leads)
          (
            new,
            suc place.n,
            place.near,
            found,
            inl (refl, ap (λ (e : DirEntry). e.file) kept, refl),
          ),
      kept,
      λ path end w. steps true path end w,
      record {
        holds_root = inl place.closed.holds_root;
        next = λ a i. elim i [
          | inl i ↦ grown-next walk s names name In place entries new agree is_new named ends a i
          | inr e ↦
              inl (ap (λ (x : ℕ). (after x).next_dir) e ∙ ap (λ (x : DirEntry). x.next_dir) kept)
        ];
        extent = λ a i dir. elim i [
          | inl i ↦
              inl (
                grown-extent walk s names name In place entries new agree is_new named ends a i dir)
          | inr e ↦
              absurd (dir (ap (λ (x : ℕ). (after x).file) e ∙ ap (λ (x : DirEntry). x.file) kept))
        ];
        no_mark = λ i. elim i [ inl i ↦ place.closed.no_mark i | inr e ↦ is_new.no_mark (sym e) ];
      },
      refl,
    )
