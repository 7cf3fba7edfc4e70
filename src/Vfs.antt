-- ===== src/Vfs.antt =====
-- The virtual file system of vfs.c: mounted file systems, open files, and read and seek by
-- descriptor. The lists of the source only grow at their end, so a pointer into one is a position:
-- a file system is its place behind `rootFS`, a descriptor the place of a file behind `rootFile`.
pub mod Mounts
pub mod Table
pub mod Open
pub mod Files
pub mod Steps
pub mod Tests
use myreallyoldkernel.Prelude.{
  ℕ, zero, suc, ◌+◌, ◌-◌, ◌%◌, ◌^◌, ◌≤◌, ◌<◌, Bool, true, false, ◌&&◌, Option, none, some, List, [],
  ◌∷◌, ◌++◌, ltb, ◌==◌, if◌then◌else◌, get_elem?, set, take, length,
}

-- A C string without its terminator.
abbrev pub Text : Type 0
Text = List ℕ

abbrev pub slash : ℕ
slash = b'/'

-- strcmp of string.asm, which answers 0 for equal strings and 1 for others.
unfoldable pub strcmp : Text → Text → ℕ
strcmp [] [] = 0
strcmp [] (d ∷ t) = 1
strcmp (c ∷ s) [] = 1
strcmp (c ∷ s) (d ∷ t) = if c == d then strcmp s t else 1

-- `fs_t`, over the state that the operations of a file system share. A call of a file system that
-- does not return is `none`; an answer is the returned word and the state. fsWrite and listDir are
-- stored, and no function of vfs.c calls them.
pub record Fs (S : Type 0) : Type 0 where
  pub bus : ℕ
  pub device : ℕ
  pub mountpoint : Text
  pub fs_open : S → Text → ℕ → ℕ → Option (ℕ × S)
  pub fs_read : S → ℕ → ℕ → ℕ → ℕ → Option (ℕ × S)

-- `file_t`; `filesystem` is the position of the file system, 0 for the root.
pub record File : Type 0 where
  pub file_num : ℕ
  pub pos : ℕ
  pub filesystem : ℕ

-- `mounts` lists the file systems behind the root, `files` the open files in order.
pub record Vfs (S : Type 0) : Type 0 where
  pub root_fs : Fs S
  pub mounts : List (Fs S)
  pub files : List File
  pub state : S

-- `sizeof (fs_t)` and `sizeof (file_t)`
abbrev pub fs_size : ℕ
fs_size = 32

abbrev pub file_size : ℕ
file_size = 16

-- How the search of open ends. With nothing mounted but the root the do-loop reads the list's end
-- mark as a file system.
pub data Search : Type 0 where
  mounted : ℕ → Search
  root : Search
  bad_pointer : Search

-- `tempFilename [i] == '/'`; the byte behind the string is its terminator.
unfoldable pub is_slash : Text → ℕ → Bool
is_slash name i = elim (get_elem? name i) [ none ↦ false | some c ↦ c == slash ]

-- `rootFile->nextFile == (file_t *) -1`
unfoldable pub nothing_open : List File → Bool
nothing_open [] = true
nothing_open (file ∷ files) = false

module _ {S : Type 0} where
  unfoldable pub register_root_fs : Fs S → S → Vfs S
  register_root_fs fs s = record { root_fs = fs; mounts = []; files = []; state = s }

  unfoldable pub register_fs : Vfs S → Fs S → Vfs S
  register_fs v fs = record v { mounts = v.mounts ++ fs ∷ [] }

  -- The do-loop over the file systems behind the root: the position of the first whose mount point
  -- is `name`. The root stands at 0.
  unfoldable pub find_mount : ℕ → List (Fs S) → Text → Option ℕ
  unfolding strcmp
  find_mount i [] name = none
  find_mount i (fs ∷ mounts) name =
      let rest = find_mount (i + 1) mounts name in
      if strcmp fs.mountpoint name == 0 then some i else rest

  -- One prefix that ends before a slash; `rest` is how the search goes on without a match.
  unfoldable pub try_mount : List (Fs S) → Text → Search → Search
  try_mount [] name rest = bad_pointer
  try_mount (fs ∷ others) name rest = elim (find_mount 1 (fs ∷ others) name) [
    | none ↦ rest
    | some k ↦ mounted k
  ]

  -- The loop over `i`, from the length of the name down to 1. `name` is the copy up to its first
  -- zero byte: a cut at a later slash does not show in a shorter prefix.
  unfoldable pub search_from : List (Fs S) → Text → ℕ → Search
  unfolding is_slash
  search_from mounts name zero = root
  search_from mounts name (suc i) =
      let rest = search_from mounts name i in
      if is_slash name (suc i) then try_mount mounts (take (suc i) name) rest else rest

  -- The file system at a position.
  unfoldable pub fs_at : Vfs S → ℕ → Option (Fs S)
  fs_at v zero = some v.root_fs
  fs_at v (suc k) = get_elem? v.mounts k

  -- The last part of open: `fsOpen` on the whole file name, and the new file at the list's end.
  unfoldable pub open_on : Vfs S → Text → ℕ → Option (ℕ × Vfs S)
  unfolding fs_at
  open_on v filename k = elim (fs_at v k) [
    | none ↦ none
    | some fs ↦ elim (fs.fs_open v.state filename fs.bus fs.device) [
      | none ↦ none
      | some (num, s) ↦ some (
        (length v.files + 1) % 2 ^ 32,
        record v {
          files = v.files ++ record { file_num = num; pos = 0; filesystem = k } ∷ [];
          state = s;
        },
      )
    ]
  ]

  -- open, with `temp` the string that `tempFilename` holds.
  unfoldable pub open_as : Vfs S → Text → Text → Option (ℕ × Vfs S)
  open_as v temp filename = elim (search_from v.mounts temp (length temp)) [
    | bad_pointer ↦ none
    | root ↦ open_on v filename 0
    | mounted k ↦ open_on v filename k
  ]

  -- `behind` are the bytes that follow `tempFilename` on the stack up to the first zero: the copy has
  -- no terminator of its own.
  unfoldable pub open_file : Vfs S → Text → Text → Option (ℕ × Vfs S)
  unfolding open_as
  open_file v behind filename = open_as v (filename ++ behind) filename

  -- What read makes of the answer of a file system.
  abbrev pub reply : Vfs S → Option (ℕ × S) → Option (ℕ × Vfs S)
  reply v none = none
  reply v (some (n, s)) = some (n, record v { state = s })

  -- fsRead of the file at a position of the list, from its own position on. `none` also stands for a
  -- walk past the list's end.
  unfoldable pub read_at : Vfs S → ℕ → ℕ → ℕ → Option (ℕ × Vfs S)
  read_at v i count buf = elim (get_elem? v.files i) [
    | none ↦ none
    | some file ↦ elim (fs_at v file.filesystem) [
      | none ↦ none
      | some fs ↦ reply v (fs.fs_read v.state file.file_num count buf file.pos)
    ]
  ]

  -- read answers -1 where no file is open; else it walks `fd - 1` files from the first, and none for
  -- a descriptor of 0.
  unfoldable pub read : Vfs S → ℕ → ℕ → ℕ → Option (ℕ × Vfs S)
  unfolding read_at nothing_open
  read v fd count buf =
      if nothing_open v.files then some (2 ^ 32 - 1, v) else read_at v (fd - 1) count buf

  -- seek walks `fd` files from the dummy head, whose own position a descriptor of 0 sets.
  unfoldable pub seek : Vfs S → ℕ → ℕ → Option (ℕ × Vfs S)
  seek v zero pos = some (0, v)
  seek v (suc i) pos = elim (get_elem? v.files i) [
    | none ↦ none
    | some file ↦ some (0, record v { files = set v.files i (record file { pos = pos }) })
  ]

  -- lsDir counts the open files and returns 0; the call of listDir is a comment.
  unfoldable pub ls_dir : Vfs S → Text → ℕ
  ls_dir v dir = 0
