-- ===== src/Ramfs/Start.antt =====
-- listDir, and the files that initramfs makes.
use myreallyoldkernel.Paging.{Heap}
use myreallyoldkernel.Prelude.{
  ℕ, zero, suc, Option, none, some, List, [], ◌∷◌, ◌==◌, if◌then◌else◌, ◌>>=◌,
}
use myreallyoldkernel.Vfs.{Text}
use myreallyoldkernel.Ramfs.{
  end_mark, Entries, Ramfs, find_dir, open_fs, new_root, mk_dir, mk_file, write_fs,
}

-- The names that listDir prints.
unfoldable pub list_names : ℕ → Entries → ℕ → Option (List Text)
list_names zero entries dir = none
list_names (suc fuel) entries dir = elim (list_names fuel entries (entries dir).next_dir) [
  | none ↦ if (entries dir).next_dir == end_mark then some ((entries dir).name ∷ []) else none
  | some rest ↦
      if (entries dir).next_dir == end_mark
      then some ((entries dir).name ∷ [])
      else some ((entries dir).name ∷ rest)
]

unfoldable pub list_dir : ℕ → Ramfs → Text → Option (List Text × Ramfs)
unfolding find_dir list_names
list_dir walk s dir = do
  (found, s') ← find_dir walk s dir
  names ← list_names walk s'.entries found
  some (names, s')

-- The strings of initramfs.
abbrev root_path : Text
root_path = b'/' ∷ []

abbrev test_name : Text
test_name = b't' ∷ b'e' ∷ b's' ∷ b't' ∷ []

abbrev test_path_slash : Text
test_path_slash = b'/' ∷ b't' ∷ b'e' ∷ b's' ∷ b't' ∷ b'/' ∷ []

abbrev test2_name : Text
test2_name = b't' ∷ b'e' ∷ b's' ∷ b't' ∷ b'2' ∷ []

abbrev boink_name : Text
boink_name = b'b' ∷ b'o' ∷ b'i' ∷ b'n' ∷ b'k' ∷ []

abbrev test_path : Text
test_path = b'/' ∷ b't' ∷ b'e' ∷ b's' ∷ b't' ∷ []

abbrev boo_name : Text
boo_name = b'b' ∷ b'o' ∷ b'o' ∷ b'.' ∷ b't' ∷ b'x' ∷ b't' ∷ []

abbrev boo_path : Text
boo_path =
    b'/' ∷ b't' ∷ b'e' ∷ b's' ∷ b't' ∷ b'/' ∷ b'b' ∷ b'o' ∷ b'o' ∷ b'.' ∷ b't' ∷ b'x' ∷ b't' ∷ []

-- initramfs up to the registration; `buf` is the address of the text that it writes.
unfoldable pub init_ramfs : ℕ → Heap → Entries → ℕ → Option Ramfs
unfolding new_root mk_dir mk_file open_fs write_fs
init_ramfs walk heap entries buf = do
  (root, s1) ← new_root (record { heap = heap; entries = entries; root_dir = 0 }) (λ root. root)
  s2 ← mk_dir walk (record s1 { root_dir = root }) root_path test_name
  s3 ← mk_dir walk s2 test_path_slash test2_name
  s4 ← mk_dir walk s3 test_path_slash boink_name
  s5 ← mk_file walk s4 test_path boo_name
  (file, s6) ← open_fs walk s5 boo_path 0 0
  some (write_fs s6 file 100 buf).1
