-- ===== src/Ramfs/Grow.antt =====
-- An entry linked behind the last one of a directory: what every path names, before and after.
use mathlib.Core.Path.{subst}
use mathlib.Core.Bool.{false≢true}
use native.Mathlib.Decide.{ℕ_discrete}
use myreallyoldkernel.Prelude.{
  ℕ, zero, suc, ◌≡◌, ◌≢◌, ◌<◌, inl, inr, refl, sym, ap, ◌∙◌, arith, Bool, false, some, List, [],
  ◌∷◌, ◌++◌, ◌==◌, ==_refl,
}
use myreallyoldkernel.Ramfs.{DirEntry, Entries, end_mark, store_entry, last_entry}
use myreallyoldkernel.Ramfs.Tree.{Named, Lacks, Steps, Leads, Closed}
use myreallyoldkernel.Vfs.{Text}

Named-inside :
    (entries : Entries) (name : Text) (found n at : ℕ)
    → Named entries name found n at
    → at ≢ end_mark
Named-inside entries name found zero at w = w.1
Named-inside entries name found (suc n) at w = w.0

Lacks-inside :
    (entries : Entries) (name : Text) (last n at : ℕ) → Lacks entries name last n at → at ≢ end_mark
Lacks-inside entries name last zero at w = w.1
Lacks-inside entries name last (suc n) at w = w.0

pub last_entry-Lacks :
    (walk : ℕ) (entries : Entries) (name : Text) (last n at : ℕ)
    → n < walk
    → Lacks entries name last n at
    → last_entry walk entries at ≡ some last
unfolding last_entry
last_entry-Lacks zero entries name last n at h w = absurd (omega arith)
last_entry-Lacks (suc walk) entries name last zero at h (here, _, _, ends) = rw ends (ap some here)
last_entry-Lacks (suc walk) entries name last (suc n) at h (_, _, rest) =
    let more = Lacks-inside entries name last n (entries at).next_dir rest in
    let test : ((entries at).next_dir == end_mark) ≡ false = ground (arith, more) in
    rw test (last_entry-Lacks walk entries name last n (entries at).next_dir (omega arith) rest)

pub store_entry_self :
    (entries : Entries) (at : ℕ) (entry : DirEntry) → store_entry entries at entry at ≡ entry
unfolding store_entry
store_entry_self entries at entry = rw (==_refl at) refl

pub store_entry_ne :
    (entries : Entries) (at other : ℕ) (entry : DirEntry)
    → other ≢ at
    → store_entry entries at entry other ≡ entries other
unfolding store_entry
store_entry_ne entries at other entry ne = ground arith

-- What starts in a closed set stays in it.
module _ (entries : Entries) (root : ℕ) (In : ℕ → Type 0) (closed : Closed entries root In) where
  pub Named-In : (name : Text) (found n at : ℕ) → In at → Named entries name found n at → In found
  Named-In name found zero at inside (here, _, _) = subst In here inside
  Named-In name found (suc n) at inside (_, _, rest) = elim (closed.next at inside) [
    | inl e ↦ absurd (Named-inside entries name found n (entries at).next_dir rest e)
    | inr i ↦ Named-In name found n (entries at).next_dir i rest
  ]

  pub Steps-In :
      (files : Bool) (walk : ℕ) (names : List Text) (at end : ℕ)
      → In at
      → Steps files walk entries names at end
      → In end
  Steps-In files walk [] at end inside w = subst In w inside
  Steps-In files walk (name ∷ names) at end inside (found, n, _, named, goes) =
      let here = Named-In name found n at inside named in
      elim goes [
        | inl (_, _, e) ↦ subst In e here
        | inr (dir, w) ↦
            Steps-In files walk names (entries found).extent end (closed.extent found here dir) w
      ]

  pub Lacks-In : (name : Text) (last n at : ℕ) → In at → Lacks entries name last n at → In last
  Lacks-In name last zero at inside (here, _, _, _) = subst In here inside
  Lacks-In name last (suc n) at inside (_, _, rest) = elim (closed.next at inside) [
    | inl e ↦ absurd (Lacks-inside entries name last n (entries at).next_dir rest e)
    | inr i ↦ Lacks-In name last n (entries at).next_dir i rest
  ]

-- Entries that agree on a closed set: paths that start in it lead to the same places.
module _ (entries entries' : Entries) (root : ℕ) (In : ℕ → Type 0) (closed : Closed entries root In)
    (agree : (a : ℕ) → In a → entries' a ≡ entries a) where
  Named-agree :
      (name : Text) (found n at : ℕ)
      → In at
      → Named entries name found n at
      → Named entries' name found n at
  Named-agree name found zero at inside (here, some_at, same) =
      (here, some_at, ap (λ (e : DirEntry). e.name) (agree at inside) ∙ same)
  Named-agree name found (suc n) at inside (some_at, differs, rest) = elim (closed.next at inside) [
    | inl e ↦ absurd (Named-inside entries name found n (entries at).next_dir rest e)
    | inr i ↦
        rw (agree at inside)
          (some_at, differs, Named-agree name found n (entries at).next_dir i rest)
  ]

  pub Lacks-agree :
      (name : Text) (last n at : ℕ)
      → In at
      → Lacks entries name last n at
      → Lacks entries' name last n at
  Lacks-agree name last zero at inside w = rw (agree at inside) w
  Lacks-agree name last (suc n) at inside (some_at, differs, rest) = elim (closed.next at inside) [
    | inl e ↦ absurd (Lacks-inside entries name last n (entries at).next_dir rest e)
    | inr i ↦
        rw (agree at inside)
          (some_at, differs, Lacks-agree name last n (entries at).next_dir i rest)
  ]

  pub Steps-agree :
      (files : Bool) (walk : ℕ) (names : List Text) (at end : ℕ)
      → In at
      → Steps files walk entries names at end
      → Steps files walk entries' names at end
  Steps-agree files walk [] at end inside w = w
  Steps-agree files walk (name ∷ names) at end inside (found, n, near, named, goes) =
      let here = Named-In entries root In closed name found n at inside named in
      let e = agree found here in
      (
        found,
        n,
        near,
        Named-agree name found n at inside named,
        elim goes [
          | inl w ↦ inl (rw e w)
          | inr (dir, w) ↦ inr (
              rw e (
                dir,
                Steps-agree files walk names (entries found).extent end
                    (closed.extent found here dir) w,
              ))
        ],
      )

-- The last entry of a list gets a successor.
module _ (entries : Entries) (last new : ℕ) (ends : (entries last).next_dir ≡ end_mark) where
  abbrev pub linked : Entries
  linked = store_entry entries last (record (entries last) { next_dir = new })

  pub linked-fields :
      (a : ℕ)
      → ((linked a).name ≡ (entries a).name)
        × ((linked a).extent ≡ (entries a).extent)
        × ((linked a).file ≡ (entries a).file)
  linked-fields a = elim (ℕ_discrete a last) [
    | yes e ↦
        rw (e, store_entry_self entries last (record (entries last) { next_dir = new }))
          (refl, refl, refl)
    | no ne ↦
        rw (store_entry_ne entries last a (record (entries last) { next_dir = new }) ne)
          (refl, refl, refl)
  ]

  pub linked-other : (a : ℕ) → a ≢ last → linked a ≡ entries a
  linked-other a ne = store_entry_ne entries last a (record (entries last) { next_dir = new }) ne

  -- An entry with a successor is not the last one.
  not_last : (a : ℕ) → (entries a).next_dir ≢ end_mark → a ≢ last
  not_last a more e = more (ap (λ (x : ℕ). (entries x).next_dir) e ∙ ends)

  Named-linked :
      (name : Text) (found n at : ℕ) → Named entries name found n at → Named linked name found n at
  Named-linked name found zero at (here, some_at, same) =
      (here, some_at, (linked-fields at).0 ∙ same)
  Named-linked name found (suc n) at (some_at, differs, rest) =
      let more = Named-inside entries name found n (entries at).next_dir rest in
      rw (linked-other at (not_last at more))
        (some_at, differs, Named-linked name found n (entries at).next_dir rest)

  pub Steps-linked :
      (files : Bool) (walk : ℕ) (names : List Text) (at end : ℕ)
      → Steps files walk entries names at end
      → Steps files walk linked names at end
  Steps-linked files walk [] at end w = w
  Steps-linked files walk (name ∷ names) at end (found, n, near, named, goes) =
      let (_, extent, file) = linked-fields found in
      (
        found,
        n,
        near,
        Named-linked name found n at named,
        elim goes [
          | inl w ↦ inl (rw file w)
          | inr (dir, w) ↦
              inr (
                rw (extent, file) (dir, Steps-linked files walk names (entries found).extent end w))
        ],
      )

  -- The new entry is the first one with its name, where none had it before.
  pub Named-new :
      (name : Text) (n at : ℕ)
      → new ≢ end_mark
      → (entries new).name ≡ name
      → Lacks entries name last n at
      → Named linked name new (suc n) at
  Named-new name zero at some_new same (here, some_at, differs, _) =
      let next : (linked at).next_dir ≡ new =
        ap (λ (a : ℕ). (linked a).next_dir) here
        ∙ ap (λ (e : DirEntry). e.next_dir)
            (store_entry_self entries last (record (entries last) { next_dir = new })) in
      let other : (linked at).name ≢ name = rw (linked-fields at).0 differs in
      let named : Named linked name new 0 new = (refl, some_new, (linked-fields new).0 ∙ same) in
      (some_at, other, rw next named)
  Named-new name (suc n) at some_new same (some_at, differs, rest) =
      let more = Lacks-inside entries name last n (entries at).next_dir rest in
      rw (linked-other at (not_last at more))
        (some_at, differs, Named-new name n (entries at).next_dir some_new same rest)

-- A path of directories goes on with one more part.
pub Leads-more :
    (files : Bool) (walk : ℕ) (entries : Entries) (names more : List Text) (at middle end : ℕ)
    → Leads walk entries names at middle
    → Steps files walk entries more middle end
    → Steps files walk entries (names ++ more) at end
Leads-more files walk entries [] more at middle end w w' =
    subst (λ (a : ℕ). Steps files walk entries more a end) (sym w) w'
Leads-more files walk entries (name ∷ names) more at middle end (found, n, near, named, goes) w' = (
  found,
  n,
  near,
  named,
  elim goes [
    | inl (no_files, _, _) ↦ absurd (false≢true no_files)
    | inr (dir, w) ↦
        inr (dir, Leads-more files walk entries names more (entries found).extent middle end w w')
  ],
)
