-- ===== src/Atapi/Path.antt =====
-- What a path leads to on a disc, and that findFile of atapi.c finds it.
use myreallyoldkernel.Atapi.{Ports, find_drive}
use myreallyoldkernel.Atapi.Buffer.{Lists, root_lba-moved, search_dir-Lists}
use myreallyoldkernel.Atapi.Directory.{
  Disc, memory_of, load_sector, search_dir, entry_lba, root_lba, has_dot, iso_name, find_in,
  find_file,
}
use myreallyoldkernel.Atapi.Listing.{RootAt, root_lba-RootAt}
use myreallyoldkernel.Atapi.Sectors.{content, Buffered, Serves, load_sector-Buffered}
use myreallyoldkernel.Paging.{Heap, kmalloc}
use myreallyoldkernel.Prelude.{
  ◌⊎◌, inl, inr, ℕ, zero, suc, ◌+◌, ◌≤◌, ◌<◌, ◌^◌, ◌≡◌, ◌≢◌, refl, ap, ◌∙◌, arith, true, false,
  Option, none, some, List, [], ◌∷◌, ◌++◌, ◌==◌, if◌then◌else◌, length, ◌>>=◌,
}
use myreallyoldkernel.Ramfs.{split_name}
use myreallyoldkernel.Ramfs.Find.{split_name-joined, names_more}
use myreallyoldkernel.Ramfs.Tree.{NoSlash, IsName, AreNames, joined}
use myreallyoldkernel.Vfs.{Text, slash}

-- A name with a dot.
abbrev pub Dotted : Text → Type 0
Dotted [] = ⊥
Dotted (c ∷ name) = (c ≡ b'.') ⊎ Dotted name

has_dot-Dotted : (name : Text) → Dotted name → has_dot name ≡ true
unfolding has_dot
has_dot-Dotted [] dotted = absurd dotted
has_dot-Dotted (c ∷ name) dotted = elim dotted [
  | inl e ↦ ground (arith, e)
  | inr rest ↦ let more = has_dot-Dotted name rest in ground (arith, more)
]

plain-Dotted : (name : Text) → ¬ Dotted name → has_dot name ≡ false
unfolding has_dot
plain-Dotted [] plain = refl
plain-Dotted (c ∷ name) plain =
    let none_here : c ≢ b'.' = λ e. plain (inl e) in
    let none_later = plain-Dotted name (λ d. plain (inr d)) in ground (arith, none_here, none_later)

-- A path from the directory in a sector: directories, whose names have no dot, and at the end a file,
-- whose name has one and stands in its directory with a version behind it.
abbrev pub PathTo : ℕ → (ℕ → List ℕ) → ℕ → List Text → ℕ → Type 0
PathTo walk sector lba [] target = ⊥
PathTo walk sector lba (name ∷ []) target =
    Dotted name × Lists walk (content sector lba) (name ++ b';' ∷ b'1' ∷ []) target
PathTo walk sector lba (name ∷ next ∷ names) target =
    (child : ℕ) × (¬ Dotted name)
    × (child < 2 ^ 32)
    × Lists walk (content sector lba) name child
    × PathTo walk sector child (next ∷ names) target

module _ {D : Type 0} (ports : Ports D) where
  IsName-NoSlash : (name : Text) → IsName name → NoSlash name
  IsName-NoSlash [] h = absurd h
  IsName-NoSlash (c ∷ name) h = h

  -- A round of the for loop behind a slash, at a split path.
  abbrev part_round : ℕ → ℕ → Disc D → ℕ → ℕ → Text × Text → Option (ℕ × Disc D)
  part_round walk fuel s buf kind parts =
      search_dir walk (memory_of s) buf 0 (iso_name kind parts.0) >>= λ found. elim found [
        | none ↦ find_in ports walk fuel s buf kind parts.1
        | some addr ↦
            let lba = entry_lba (memory_of s) (buf + addr) in
            if kind == 1
            then some (lba, s)
            else load_sector ports s lba buf >>= λ s'. find_in ports walk fuel s' buf kind parts.1
      ]

  abbrev kind_of : ℕ → Text → ℕ
  kind_of file name = if has_dot name then 1 else file

  find_in-slash :
      (walk fuel : ℕ) (s : Disc D) (buf file : ℕ) (path : Text)
      → find_in ports walk (suc fuel) s buf file (slash ∷ path)
        ≡ part_round walk fuel s buf (kind_of file (split_name path).0) (split_name path)
  unfolding find_in
  find_in-slash walk fuel s buf file path = refl

  -- A round at a part that is in the directory.
  find_in-part :
      (walk fuel : ℕ) (s : Disc D) (buf file kind offset lba : ℕ) (name rest : Text)
      → split_name (name ++ rest) ≡ (name, rest)
      → kind_of file name ≡ kind
      → search_dir walk (memory_of s) buf 0 (iso_name kind name) ≡ some (some offset)
      → entry_lba (memory_of s) (buf + offset) ≡ lba
      → find_in ports walk (suc fuel) s buf file (slash ∷ (name ++ rest)) ≡ (
          if kind == 1
          then some (lba, s)
          else load_sector ports s lba buf >>= λ s'. find_in ports walk fuel s' buf kind rest)
  find_in-part walk fuel s buf file kind offset lba name rest parts is_kind found leads =
      find_in-slash walk fuel s buf file (name ++ rest)
      ∙ ap (λ p. part_round walk fuel s buf (kind_of file p.0) p) parts
      ∙ ap (λ k. part_round walk fuel s buf k (name, rest)) is_kind
      ∙ rw (found, leads) refl

  find_in-directory :
      (walk fuel : ℕ) (s s' : Disc D) (buf file offset lba : ℕ) (name rest : Text)
      → split_name (name ++ rest) ≡ (name, rest)
      → has_dot name ≡ false
      → file ≢ 1
      → search_dir walk (memory_of s) buf 0 name ≡ some (some offset)
      → entry_lba (memory_of s) (buf + offset) ≡ lba
      → load_sector ports s lba buf ≡ some s'
      → find_in ports walk (suc fuel) s buf file (slash ∷ (name ++ rest))
        ≡ find_in ports walk fuel s' buf file rest
  find_in-directory walk fuel s s' buf file offset lba name rest parts dot no_file found leads
        loads =
      let kind : kind_of file name ≡ file = rw dot refl in
      let dir : (file == 1) ≡ false = ground (arith, no_file) in
      let plain : search_dir walk (memory_of s) buf 0 (iso_name file name) ≡ some (some offset) =
        rw dir found in
      find_in-part walk fuel s buf file file offset lba name rest parts kind plain leads
      ∙ rw (dir, loads) refl

  module _ {bus drive : ℕ} {Ready : D → Type 0} {sector : ℕ → List ℕ}
      (serves : Serves ports bus drive Ready sector) (walk buf target : ℕ)
      (room : buf + 2048 ≤ 2 ^ 32) where
    find_in-PathTo :
        (fuel : ℕ) (s : Disc D) (lba file : ℕ) (names : List Text)
        → AreNames names
        → length (joined names) ≤ fuel
        → find_drive 0 s.drives none ≡ some (bus, drive)
        → Ready s.drive
        → Buffered (memory_of s) buf (content sector lba)
        → file ≢ 1
        → PathTo walk sector lba names target
        → (s' : Disc D) × (find_in ports walk fuel s buf file (joined names) ≡ some (target, s'))
          × Ready s'.drive
          × (s'.drives ≡ s.drives)
    unfolding joined
    find_in-PathTo fuel s lba file [] are enough found is_ready here no_file to = absurd to
    find_in-PathTo zero s lba file (name ∷ names) are enough found is_ready here no_file to =
        absurd (omega arith)
    find_in-PathTo (suc fuel) s lba file (name ∷ []) are enough found is_ready here no_file
          (dotted, lists) =
        let full = name ++ b';' ∷ b'1' ∷ [] in
        let (offset, search, leads) =
          search_dir-Lists (memory_of s) (content sector lba) buf here walk full target lists in
        let kind : (if has_dot name then 1 else file) ≡ 1 = rw (has_dot-Dotted name dotted) refl in
        (
          s,
          find_in-part walk fuel s buf file 1 offset target name []
              (split_name-joined name [] (IsName-NoSlash name are.0)) kind search leads,
          is_ready,
          refl,
        )
    find_in-PathTo (suc fuel) s lba file (name ∷ next ∷ names) are enough found is_ready here
          no_file (child, plain, low, lists, to) =
        let dot = plain-Dotted name plain in
        let (offset, search, leads) =
          search_dir-Lists (memory_of s) (content sector lba) buf here walk name child lists in
        let (entered, loads, still_ready, same, now_here) =
          load_sector-Buffered ports serves s child buf found is_ready low room in
        let found_still : find_drive 0 entered.drives none ≡ some (bus, drive) = rw same found in
        let shorter = names_more fuel name (joined (next ∷ names)) are.0 (omega arith) in
        let (s', finds, ends, table) =
          find_in-PathTo fuel entered child file (next ∷ names) are.1 shorter found_still
            still_ready now_here no_file to in
        (
          s',
          find_in-directory walk fuel s entered buf file offset child name (joined (next ∷ names))
                (split_name-joined name (next ∷ names) (IsName-NoSlash name are.0)) dot no_file
                search leads loads
              ∙ finds,
          ends,
          table ∙ same,
        )

    -- findFile, with what it takes from the descriptor for the block of the root directory.
    pub find_file_opens :
        (s : Disc D) (names : List Text) (root file given_bus given_device : ℕ) (heap : Heap)
        → AreNames names
        → find_drive 0 s.drives none ≡ some (bus, drive)
        → Ready s.drive
        → kmalloc s.heap 2048 ≡ some (buf, heap)
        → root_lba (content sector 0x10) 0 ≡ root
        → root < 2 ^ 32
        → file ≢ 1
        → PathTo walk sector root names target
        → (s' : Disc D) × (find_file ports walk file s (joined names) given_bus given_device
            ≡ some (target, s'))
          × Ready s'.drive
          × (s'.drives ≡ s.drives)
    unfolding find_file
    find_file_opens s names root file given_bus given_device heap are found is_ready got is_root low
          no_file to =
        let (described, reads, ready_again, same, here) =
          load_sector-Buffered ports serves (record s { heap = heap }) 0x10 buf found is_ready
            (omega arith) room in
        let found_again : find_drive 0 described.drives none ≡ some (bus, drive) = rw same found in
        let (opened, loads, ready_now, same_still, now_here) =
          load_sector-Buffered ports serves described root buf found_again ready_again low room in
        let found_still : find_drive 0 opened.drives none ≡ some (bus, drive) =
          rw (same_still, same) found in
        let at_root =
          root_lba-moved (memory_of described) (content sector 0x10) buf here ∙ is_root in
        let (s', finds, ends, table) =
          find_in-PathTo (length (joined names)) opened root file names are (omega arith)
            found_still ready_now now_here no_file to in
        (s', rw (got, find_file, reads, at_root, loads) finds, ends, table ∙ same_still ∙ same)

    -- findFile of a path on a disc that a drive serves, where the table of drives has the drive, kmalloc
    -- returns a block below the end of memory, the descriptor in sector 16 has a block below 256 for the
    -- root directory, and `file` does not happen to be 1. Each part of the path is the first entry of
    -- its name in the directory before, all but the last are names without a dot, and the last has a
    -- dot and stands in its directory with ";1" behind it. Then findFile returns the block that the last
    -- entry holds, lowest byte first, the drive is ready again, and the table of drives is as before.
    pub find_file-PathTo :
        (s : Disc D) (names : List Text) (root file given_bus given_device : ℕ) (heap : Heap)
        → AreNames names
        → find_drive 0 s.drives none ≡ some (bus, drive)
        → Ready s.drive
        → kmalloc s.heap 2048 ≡ some (buf, heap)
        → RootAt (content sector 0x10) 0 root
        → root < 256
        → file ≢ 1
        → PathTo walk sector root names target
        → (s' : Disc D) × (find_file ports walk file s (joined names) given_bus given_device
            ≡ some (target, s'))
          × Ready s'.drive
          × (s'.drives ≡ s.drives)
    find_file-PathTo s names root file given_bus given_device heap are found is_ready got at_root
          low no_file to =
        let (_, (_, right)) = root_lba-RootAt (content sector 0x10) 0 root at_root (omega arith) in
        find_file_opens s names root file given_bus given_device heap are found is_ready got
          (right low) (omega arith) no_file to
