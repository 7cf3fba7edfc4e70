-- ===== src/Ramfs/Tree.antt =====
-- Paths by their parts and directories as linked lists: what a path of the ram file system names.
use myreallyoldkernel.Prelude.{
  ℕ, zero, suc, ◌≡◌, ◌≢◌, ◌<◌, ◌⊎◌, Bool, true, false, List, [], ◌∷◌, ◌++◌,
}
use myreallyoldkernel.Ramfs.{Entries, end_mark}
use myreallyoldkernel.Vfs.{Text, slash}

-- A part of a path: not empty, and without a slash.
abbrev pub NoSlash : Text → Type 0
NoSlash [] = Unit {0}
NoSlash (c ∷ name) = (c ≢ slash) × NoSlash name

abbrev pub IsName : Text → Type 0
IsName [] = ⊥
IsName (c ∷ name) = NoSlash (c ∷ name)

abbrev pub AreNames : List Text → Type 0
AreNames [] = Unit {0}
AreNames (name ∷ names) = IsName name × AreNames names

-- Each part behind a slash.
unfoldable pub joined : List Text → Text
joined [] = []
joined (name ∷ names) = slash ∷ (name ++ joined names)

-- The path of no parts is the root's.
unfoldable pub path_of : List Text → Text
unfolding joined
path_of [] = slash ∷ []
path_of (name ∷ names) = joined (name ∷ names)

-- The first entry with a name, `n` entries behind `at` in its list.
abbrev pub Named : Entries → Text → ℕ → ℕ → ℕ → Type 0
Named entries name found zero at = (at ≡ found) × (at ≢ end_mark) × ((entries at).name ≡ name)
Named entries name found (suc n) at =
    (at ≢ end_mark) × ((entries at).name ≢ name) × Named entries name found n (entries at).next_dir

-- A list from `at` on without a name; `last` is its last entry, `n` entries behind.
abbrev pub Lacks : Entries → Text → ℕ → ℕ → ℕ → Type 0
Lacks entries name last zero at =
    (at ≡ last) × (at ≢ end_mark) × ((entries at).name ≢ name) × ((entries at).next_dir ≡ end_mark)
Lacks entries name last (suc n) at =
    (at ≢ end_mark) × ((entries at).name ≢ name) × Lacks entries name last n (entries at).next_dir

-- What a path leads to, from the directory whose first entry is `at`: each part is the name of an
-- entry of the list that the part before leads to. Where `files` is true, a file may end the path,
-- whatever follows it. Each entry is fewer than `walk` entries behind the first of its list.
abbrev pub Steps : Bool → ℕ → Entries → List Text → ℕ → ℕ → Type 0
Steps files walk entries [] at end = at ≡ end
Steps files walk entries (name ∷ names) at end =
    (found : ℕ) × (n : ℕ) × (n < walk)
    × Named entries name found n at
    × ((files ≡ true) × ((entries found).file ≡ 1) × (found ≡ end)
        ⊎ ((entries found).file ≢ 1) × Steps files walk entries names (entries found).extent end)

-- What a path names, and the directory that a path of directories leads to.
abbrev pub Walks : ℕ → Entries → List Text → ℕ → ℕ → Type 0
Walks = Steps true

abbrev pub Leads : ℕ → Entries → List Text → ℕ → ℕ → Type 0
Leads = Steps false

-- A set of entries that holds the root and that no pointer leaves.
pub record Closed (entries : Entries) (root : ℕ) (In : ℕ → Type 0) : Type 0 where
  pub holds_root : In root
  pub next : (a : ℕ) → In a → ((entries a).next_dir ≡ end_mark) ⊎ In (entries a).next_dir
  pub extent : (a : ℕ) → In a → (entries a).file ≢ 1 → In (entries a).extent
  pub no_mark : ¬ In end_mark
