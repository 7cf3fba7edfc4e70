-- ===== src/Ramfs/NewDir.antt =====
-- The structs that mkDir makes, and its run.
use myreallyoldkernel.Paging.{Heap, kmalloc}
use myreallyoldkernel.Prelude.{ℕ, ◌≡◌, ◌≢◌, ◌<◌, ◌⊎◌, inr, refl, sym, ap, ◌∙◌, arith, some, [], ◌∷◌}
use myreallyoldkernel.Ramfs.{
  DirEntry, Entries, Ramfs, end_mark, entry_size, store_entry, find_dir, append_entry, new_entry,
  new_root, mk_dir,
}
use myreallyoldkernel.Ramfs.Grow.{store_entry_self, store_entry_ne}
use myreallyoldkernel.Ramfs.Place.{IsNew}
use myreallyoldkernel.Ramfs.Tree.{Named, Leads}
use myreallyoldkernel.Vfs.{Text}

abbrev pub dot_name : Text
dot_name = b'.' ∷ []

abbrev pub dots_name : Text
dots_name = b'.' ∷ b'.' ∷ []

-- The blocks that mkDir gets from kmalloc.
pub record Blocks (s : Ramfs) (In : ℕ → Type 0) : Type 0 where
  pub text : ℕ
  pub dot : ℕ
  pub dots : ℕ
  pub dir : ℕ
  pub heap1 : Heap
  pub heap2 : Heap
  pub heap3 : Heap
  pub heap4 : Heap
  pub got1 : kmalloc s.heap 25 ≡ some (text, heap1)
  pub got2 : kmalloc heap1 entry_size ≡ some (dot, heap2)
  pub got3 : kmalloc heap2 entry_size ≡ some (dots, heap3)
  pub got4 : kmalloc heap3 entry_size ≡ some (dir, heap4)
  pub new_dot : IsNew In dot
  pub new_dots : IsNew In dots
  pub new_dir : IsNew In dir
  pub dot_dots : dot ≢ dots
  pub dot_dir : dot ≢ dir
  pub dots_dir : dots ≢ dir

-- The structs that mkDir sets, one after the other.
module _ (entries : Entries) (dot dots dir d : ℕ) (name : Text) where
  abbrev pub first_dot : DirEntry
  first_dot = record { next_dir = (entries dot).next_dir; extent = dot; name = dot_name; file = 0 }

  abbrev pub e1 : Entries
  e1 = store_entry entries dot first_dot

  abbrev pub dots_entry : DirEntry
  dots_entry = record { next_dir = end_mark; extent = d; name = dots_name; file = 0 }

  abbrev pub e2 : Entries
  e2 = store_entry e1 dots dots_entry

  abbrev pub e3 : Entries
  e3 = store_entry e2 dot (record (e2 dot) { next_dir = dots })

  abbrev pub dir_entry : DirEntry
  dir_entry = record { next_dir = end_mark; extent = dot; name = name; file = 0 }

  abbrev pub e4 : Entries
  e4 = store_entry e3 dir dir_entry

  abbrev pub dot_entry : DirEntry
  dot_entry = record { next_dir = dots; extent = dot; name = dot_name; file = 0 }

  pub e4-dot : dot ≢ dots → dot ≢ dir → e4 dot ≡ dot_entry
  e4-dot h1 h2 =
      store_entry_ne e3 dir dot dir_entry h2
      ∙ store_entry_self e2 dot (record (e2 dot) { next_dir = dots })
      ∙ ap (λ (e : DirEntry). record e { next_dir = dots })
          (store_entry_ne e1 dots dot dots_entry h1 ∙ store_entry_self entries dot first_dot)

  pub e4-dots : dot ≢ dots → dots ≢ dir → e4 dots ≡ dots_entry
  e4-dots h1 h2 =
      store_entry_ne e3 dir dots dir_entry h2
      ∙ store_entry_ne e2 dot dots (record (e2 dot) { next_dir = dots }) (λ e. h1 (sym e))
      ∙ store_entry_self e1 dots dots_entry

  pub e4-other : (a : ℕ) → a ≢ dot → a ≢ dots → a ≢ dir → e4 a ≡ entries a
  e4-other a h1 h2 h3 =
      store_entry_ne e3 dir a dir_entry h3
      ∙ store_entry_ne e2 dot a (record (e2 dot) { next_dir = dots }) h1
      ∙ store_entry_ne e1 dots a dots_entry h2
      ∙ store_entry_ne entries dot a first_dot h1

-- The set of entries in use behind mkDir.
abbrev pub WithDir : (ℕ → Type 0) → ℕ → ℕ → ℕ → ℕ → Type 0
WithDir In dot dots dir a = In a ⊎ ((a ≡ dot) ⊎ ((a ≡ dots) ⊎ (a ≡ dir)))

-- The calls of mkDir, with what they answer.
pub mk_dir_runs :
    (walk : ℕ) (s s' : Ramfs) (path name : Text) (In : ℕ → Type 0) (d : ℕ) (b : Blocks s In)
    → find_dir walk s path ≡ some (d, record s { heap = b.heap1 })
    → append_entry walk
        (record s { heap = b.heap4; entries = e4 s.entries b.dot b.dots b.dir d name })
        d
        b.dir
      ≡ some s'
    → mk_dir walk s path name ≡ some s'
unfolding mk_dir new_root new_entry
mk_dir_runs walk s s' path name In d b finds ends =
    rw (mk_dir, finds, new_root, new_entry, b.got2, b.got3, b.got4) ends

-- "." is not "..".
pub dot_ne_dots : dot_name ≢ dots_name
dot_ne_dots e = absurd (ground arith)

-- The new structs, linked or not, as paths find them: ".." is behind ".", and leads to the parent.
pub parent_found :
    (walk : ℕ) (after : Entries) (dot dots d : ℕ)
    → 1 < walk
    → dot ≢ end_mark
    → dots ≢ end_mark
    → after dot ≡ record { next_dir = dots; extent = dot; name = dot_name; file = 0 }
    → after dots ≡ record { next_dir = end_mark; extent = d; name = dots_name; file = 0 }
    → Leads walk after (dots_name ∷ []) dot d
parent_found walk after dot dots d h some_dot some_dots at_dot at_dots =
    let found : Named after dots_name dots 1 dot =
      rw at_dot (some_dot, dot_ne_dots, (refl, some_dots, ap (λ (e : DirEntry). e.name) at_dots)) in
    let dir : (after dots).file ≢ 1 =
      λ e. absurd (omega (arith, ap (λ (x : DirEntry). x.file) at_dots, e)) in
    (dots, 1, h, found, inr (dir, ap (λ (e : DirEntry). e.extent) at_dots))
