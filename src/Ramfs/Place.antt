-- ===== src/Ramfs/Place.antt =====
-- A place for a new entry of a directory, and what linking it there does to every path.
use mathlib.Core.Path.{subst}
use native.Mathlib.Decide.{ℕ_discrete}
use myreallyoldkernel.Prelude.{
  ℕ, zero, suc, ◌≡◌, ◌≢◌, ◌<◌, ◌⊎◌, inl, inr, refl, sym, ap, ◌∙◌, Bool, false, some, List,
}
use myreallyoldkernel.Ramfs.{DirEntry, Entries, Ramfs, end_mark, store_entry, append_entry}
use myreallyoldkernel.Ramfs.Grow.{
  last_entry-Lacks, store_entry_self, Steps-In, Lacks-In, Lacks-agree, Steps-agree, linked-fields,
  linked-other, Steps-linked, Named-new,
}
use myreallyoldkernel.Ramfs.Tree.{AreNames, Named, Lacks, Steps, Leads, Closed}
use myreallyoldkernel.Vfs.{Text}

-- A place for a new entry: the path with parts `names` leads to the directory `d`, whose list has no
-- entry with the new name; `In` is the set of the entries in use.
pub record Place (walk : ℕ) (s : Ramfs) (names : List Text) (name : Text) (In : ℕ → Type 0)
    : Type 0 where
  pub d : ℕ
  pub last : ℕ
  pub n : ℕ
  pub closed : Closed s.entries s.root_dir In
  pub are_names : AreNames names
  pub leads : Leads walk s.entries names s.root_dir d
  pub lacks : Lacks s.entries name last n d
  pub near : suc n < walk

-- A struct that kmalloc returned: outside of the set in use.
pub record IsNew (In : ℕ → Type 0) (at : ℕ) : Type 0 where
  pub unused : ¬ In at
  pub no_mark : at ≢ end_mark

pub append_runs :
    (walk : ℕ) (s : Ramfs) (name : Text) (last n d new : ℕ)
    → n < walk
    → Lacks s.entries name last n d
    → append_entry walk s d new
      ≡ some (record s {
        entries = store_entry s.entries last (record (s.entries last) { next_dir = new });
      })
unfolding append_entry
append_runs walk s name last n d new h w =
    rw (last_entry-Lacks walk s.entries name last n d h w, append_entry) refl

Lacks-ends :
    (entries : Entries) (name : Text) (last n at : ℕ)
    → Lacks entries name last n at
    → (entries last).next_dir ≡ end_mark
Lacks-ends entries name last zero at (here, _, _, ends) =
    ap (λ (a : ℕ). (entries a).next_dir) (sym here) ∙ ends
Lacks-ends entries name last (suc n) at (_, _, rest) =
    Lacks-ends entries name last n (entries at).next_dir rest

-- What linking `new` does, where the entries in use are as they were: `entries` are those after
-- the new structs were set.
module _ (walk : ℕ) (s : Ramfs) (names : List Text) (name : Text) (In : ℕ → Type 0)
    (place : Place walk s names name In) (entries : Entries) (new : ℕ)
    (agree : (a : ℕ) → In a → entries a ≡ s.entries a) (is_new : IsNew In new)
    (named : (entries new).name ≡ name) (ends_new : (entries new).next_dir ≡ end_mark) where
  pub d_In : In place.d
  d_In =
      Steps-In s.entries s.root_dir In place.closed false walk names s.root_dir place.d
        place.closed.holds_root place.leads

  pub last_In : In place.last
  last_In =
      Lacks-In s.entries s.root_dir In place.closed name place.last place.n place.d d_In place.lacks

  pub still-Lacks : Lacks entries name place.last place.n place.d
  still-Lacks =
      Lacks-agree s.entries entries s.root_dir In place.closed agree name place.last place.n place.d
        d_In place.lacks

  pub still_ends : (entries place.last).next_dir ≡ end_mark
  still_ends = Lacks-ends entries name place.last place.n place.d still-Lacks

  abbrev pub grown : Entries
  grown = store_entry entries place.last (record (entries place.last) { next_dir = new })

  -- Paths that led somewhere lead there still.
  pub Steps-grown :
      (files : Bool) (path : List Text) (end : ℕ)
      → Steps files walk s.entries path s.root_dir end
      → Steps files walk grown path s.root_dir end
  Steps-grown files path end w =
      Steps-linked entries place.last new still_ends files walk path s.root_dir end (
        Steps-agree s.entries entries s.root_dir In place.closed agree files walk path s.root_dir
          end place.closed.holds_root w)

  -- The new name is found, as a file or as a directory.
  pub Named-grown : Named grown name new (suc place.n) place.d
  Named-grown =
      Named-new entries place.last new still_ends name place.n place.d is_new.no_mark named
        still-Lacks

  pub new_entry_kept : grown new ≡ entries new
  new_entry_kept =
      linked-other entries place.last new still_ends new
        (λ e. is_new.unused (subst In (sym e) last_In))

  -- An entry in use points to entries in use, or to the new one.
  pub grown-next :
      (a : ℕ)
      → In a
      → ((grown a).next_dir ≡ end_mark) ⊎ (In (grown a).next_dir ⊎ ((grown a).next_dir ≡ new))
  grown-next a inside = elim (ℕ_discrete a place.last) [
    | yes e ↦ inr (
        inr (
          ap (λ (x : ℕ). (grown x).next_dir) e
          ∙ ap (λ (x : DirEntry). x.next_dir)
              (store_entry_self entries place.last
                (record (entries place.last) { next_dir = new }))))
    | no ne ↦
        let same = linked-other entries place.last new still_ends a ne ∙ agree a inside in
        elim (place.closed.next a inside) [
          | inl e ↦ inl (ap (λ (x : DirEntry). x.next_dir) same ∙ e)
          | inr i ↦ inr (inl (subst In (sym (ap (λ (x : DirEntry). x.next_dir) same)) i))
        ]
  ]

  pub grown-extent : (a : ℕ) → In a → (grown a).file ≢ 1 → In (grown a).extent
  grown-extent a inside dir =
      let (_, extent, file) = linked-fields entries place.last new still_ends a in
      let e = agree a inside in
      let dir' : (s.entries a).file ≢ 1 = λ f. dir (file ∙ ap (λ (x : DirEntry). x.file) e ∙ f) in
      subst In (sym (extent ∙ ap (λ (x : DirEntry). x.extent) e))
        (place.closed.extent a inside dir')
