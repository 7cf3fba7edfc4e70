-- ===== src/Ramfs/MakeDir.antt =====
-- mkDir: a new directory, with "." and "..", and its entry in the parent.
use mathlib.Core.Path.{subst}
use myreallyoldkernel.Prelude.{
  ℕ, suc, ◌≡◌, ◌≢◌, ◌⊎◌, inl, inr, refl, sym, ap, ◌∙◌, arith, true, false, some, List, [], ◌∷◌,
  ◌++◌,
}
use myreallyoldkernel.Ramfs.{DirEntry, Entries, Ramfs, end_mark, mk_dir}
use myreallyoldkernel.Ramfs.Find.{find_dir-Steps}
use myreallyoldkernel.Ramfs.Grow.{store_entry_self, Leads-more}
use myreallyoldkernel.Ramfs.Make.{apart}
use myreallyoldkernel.Ramfs.Place.{
  Place, append_runs, d_In, last_In, still-Lacks, grown, Steps-grown, Named-grown, new_entry_kept,
  still_ends, grown-next, grown-extent,
}
use myreallyoldkernel.Ramfs.Grow.{linked-other}
use myreallyoldkernel.Ramfs.Tree.{path_of, Walks, Leads, Closed}
use myreallyoldkernel.Vfs.{Text}
use myreallyoldkernel.Ramfs.NewDir.{
  dot_name, dots_name, Blocks, e3, dir_entry, e4, e4-dot, e4-dots, e4-other, WithDir, mk_dir_runs,
  parent_found,
}

next_of : (entries : Entries) (a a' : ℕ) → a ≡ a' → (entries a).next_dir ≡ (entries a').next_dir
next_of entries a a' e = ap (λ (x : ℕ). (entries x).next_dir) e

extent_of : (entries : Entries) (a a' : ℕ) → a ≡ a' → (entries a).extent ≡ (entries a').extent
extent_of entries a a' e = ap (λ (x : ℕ). (entries x).extent) e

in_or_dir :
    (In : ℕ → Type 0) (dot dots dir a : ℕ)
    → (a ≡ end_mark) ⊎ (In a ⊎ (a ≡ dir))
    → (a ≡ end_mark) ⊎ WithDir In dot dots dir a
in_or_dir In dot dots dir a (inl e) = inl e
in_or_dir In dot dots dir a (inr (inl i)) = inr (inl i)
in_or_dir In dot dots dir a (inr (inr e)) = inr (inr (inr (inr e)))

-- The set of entries in use stays closed.
WithDir-Closed :
    {s : Ramfs} (entries after : Entries) (root : ℕ) (In : ℕ → Type 0) (d : ℕ) (b : Blocks s In)
    {name : Text}
    → Closed entries root In
    → ((a : ℕ)
        → In a
        → ((after a).next_dir ≡ end_mark) ⊎ (In (after a).next_dir ⊎ ((after a).next_dir ≡ b.dir)))
    → ((a : ℕ) → In a → (after a).file ≢ 1 → In (after a).extent)
    → In d
    → after b.dot ≡ record { next_dir = b.dots; extent = b.dot; name = dot_name; file = 0 }
    → after b.dots ≡ record { next_dir = end_mark; extent = d; name = dots_name; file = 0 }
    → after b.dir ≡ record { next_dir = end_mark; extent = b.dot; name = name; file = 0 }
    → Closed after root (WithDir In b.dot b.dots b.dir)
WithDir-Closed entries after root In d b closed next extent d_in at_dot at_dots at_dir = record {
  holds_root = inl closed.holds_root;
  next = λ a i. elim i [
    | inl i ↦ in_or_dir In b.dot b.dots b.dir (after a).next_dir (next a i)
    | inr (inl e) ↦
        inr (inr (inr (inl (next_of after a b.dot e ∙ ap (λ (x : DirEntry). x.next_dir) at_dot))))
    | inr (inr (inl e)) ↦ inl (next_of after a b.dots e ∙ ap (λ (x : DirEntry). x.next_dir) at_dots)
    | inr (inr (inr e)) ↦ inl (next_of after a b.dir e ∙ ap (λ (x : DirEntry). x.next_dir) at_dir)
  ];
  extent = λ a i dir. elim i [
    | inl i ↦ inl (extent a i dir)
    | inr (inl e) ↦ inr (inl (extent_of after a b.dot e ∙ ap (λ (x : DirEntry). x.extent) at_dot))
    | inr (inr (inl e)) ↦
        inl (
          subst In (sym (extent_of after a b.dots e ∙ ap (λ (x : DirEntry). x.extent) at_dots))
            d_in)
    | inr (inr (inr e)) ↦
        inr (inl (extent_of after a b.dir e ∙ ap (λ (x : DirEntry). x.extent) at_dir))
  ];
  no_mark = λ i. elim i [
    | inl i ↦ closed.no_mark i
    | inr (inl e) ↦ b.new_dot.no_mark (sym e)
    | inr (inr (inl e)) ↦ b.new_dots.no_mark (sym e)
    | inr (inr (inr e)) ↦ b.new_dir.no_mark (sym e)
  ];
}

-- mkDir in a directory without an entry of that name, where kmalloc has its four blocks: the path of
-- the new directory leads to its first entry, the one with ".." behind it to the parent's first
-- entry, every path that named something names the same, and no pointer leaves the entries in use.
pub mk_dir-Leads :
    (walk : ℕ) (s : Ramfs) (names : List Text) (name : Text) (In : ℕ → Type 0)
    (place : Place walk s names name In) (b : Blocks s In)
    → (s' : Ramfs) × (mk_dir walk s (path_of names) name ≡ some s')
      × Leads walk s'.entries (names ++ name ∷ []) s'.root_dir b.dot
      × Leads walk s'.entries (names ++ name ∷ dots_name ∷ []) s'.root_dir place.d
      × ((path : List Text) (end : ℕ)
          → Walks walk s.entries path s.root_dir end
          → Walks walk s'.entries path s'.root_dir end)
      × Closed s'.entries s'.root_dir (WithDir In b.dot b.dots b.dir)
      × (s'.heap ≡ b.heap4)
mk_dir-Leads walk s names name In place b =
    let d = place.d in
    let entries = e4 s.entries b.dot b.dots b.dir d name in
    let here =
      store_entry_self (e3 s.entries b.dot b.dots b.dir d name) b.dir
        (dir_entry s.entries b.dot b.dots b.dir d name) in
    let agree : (a : ℕ) → In a → entries a ≡ s.entries a = λ a i.
      e4-other s.entries b.dot b.dots b.dir d name a (apart In b.dot a b.new_dot i)
        (apart In b.dots a b.new_dots i) (apart In b.dir a b.new_dir i) in
    let named : (entries b.dir).name ≡ name = ap (λ (e : DirEntry). e.name) here in
    let ends : (entries b.dir).next_dir ≡ end_mark = ap (λ (e : DirEntry). e.next_dir) here in
    let after = grown walk s names name In place entries b.dir agree b.new_dir named ends in
    let at_dir =
      new_entry_kept walk s names name In place entries b.dir agree b.new_dir named ends ∙ here in
    let last_in = last_In walk s names name In place entries b.dir agree b.new_dir named ends in
    let last_ends =
      still_ends walk s names name In place entries b.dir agree b.new_dir named ends in
    let at_dot =
      linked-other entries place.last b.dir last_ends b.dot
        (λ e. apart In b.dot place.last b.new_dot last_in (sym e))
      ∙ e4-dot s.entries b.dot b.dots b.dir d name b.dot_dots b.dot_dir in
    let at_dots =
      linked-other entries place.last b.dir last_ends b.dots
        (λ e. apart In b.dots place.last b.new_dots last_in (sym e))
      ∙ e4-dots s.entries b.dot b.dots b.dir d name b.dot_dots b.dots_dir in
    let finds =
      find_dir-Steps false walk s names d b.text b.heap1 place.are_names place.leads b.got1 in
    let steps = Steps-grown walk s names name In place entries b.dir agree b.new_dir named ends in
    let found = Named-grown walk s names name In place entries b.dir agree b.new_dir named ends in
    let linked =
      append_runs walk (record s { heap = b.heap4; entries = entries }) name place.last place.n d
        b.dir (omega (arith, place.near))
        (still-Lacks walk s names name In place entries b.dir agree b.new_dir named ends) in
    let is_dir : (after b.dir).file ≢ 1 =
      λ e. absurd (omega (arith, ap (λ (x : DirEntry). x.file) at_dir, e)) in
    let extent : (after b.dir).extent ≡ b.dot = ap (λ (e : DirEntry). e.extent) at_dir in
    let parent =
      parent_found walk after b.dot b.dots d (omega (arith, place.near)) b.new_dot.no_mark
        b.new_dots.no_mark at_dot at_dots in
    (
      record s { heap = b.heap4; entries = after },
      mk_dir_runs walk s (record s { heap = b.heap4; entries = after }) (path_of names) name In d b
          finds linked,
      Leads-more false walk after names (name ∷ []) s.root_dir d b.dot
          (steps false names d place.leads)
          (b.dir, suc place.n, place.near, found, inr (is_dir, extent)),
      Leads-more false walk after names (name ∷ dots_name ∷ []) s.root_dir d d
          (steps false names d place.leads)
          (b.dir, suc place.n, place.near, found, inr (is_dir, rw extent parent)),
      λ path end w. steps true path end w,
      WithDir-Closed s.entries after s.root_dir In d b place.closed
          (grown-next walk s names name In place entries b.dir agree b.new_dir named ends)
          (grown-extent walk s names name In place entries b.dir agree b.new_dir named ends)
          (d_In walk s names name In place entries b.dir agree b.new_dir named ends) at_dot at_dots
          at_dir,
      refl,
    )
