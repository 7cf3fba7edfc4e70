-- ===== src/Vfs/Tests.antt =====
-- Two file systems, the root and one at "/cd", and a file of each.
use myreallyoldkernel.Prelude.{ℕ, ◌+◌, ◌≡◌, ◌≢◌, refl, arith, true, none, some, [], ◌∷◌, get_elem?}
use myreallyoldkernel.Vfs.{
  Text, Fs, File, Vfs, register_root_fs, register_fs, open_file, open_as, open_on, search_from,
  find_mount, is_slash, strcmp, fs_at, read, seek, reply, try_mount,
}
use myreallyoldkernel.Vfs.Open.{Opened, Chosen, IsValid, open_file-Opened, open_file_unmounted}
use myreallyoldkernel.Vfs.Steps.{starts, goes_on, registers, opens, read-Reached}
use myreallyoldkernel.Vfs.Files.{read-seek}

-- A file system that numbers its files by a count of the opens and reads what it is asked for.
abbrev fs_named : Text → Fs ℕ
fs_named mountpoint = record {
  bus = 0;
  device = 1;
  mountpoint = mountpoint;
  fs_open = λ opens name bus device. some (opens, opens + 1);
  fs_read = λ opens num count buf pos. some (count, opens);
}

abbrev root_only : Vfs ℕ
root_only = record { root_fs = fs_named (b'/' ∷ []); mounts = []; files = []; state = 5 }

abbrev cd : Vfs ℕ
cd = record root_only { mounts = fs_named (b'/' ∷ b'c' ∷ b'd' ∷ []) ∷ [] }

-- "/cd/a"
abbrev name : Text
name = b'/' ∷ b'c' ∷ b'd' ∷ b'/' ∷ b'a' ∷ []

abbrev opened : Vfs ℕ
opened = record cd { files = record { file_num = 5; pos = 0; filesystem = 1 } ∷ []; state = 6 }

open_name : open_file cd [] name ≡ some (1, opened)
unfolding open_file open_as search_from try_mount find_mount is_slash strcmp open_on fs_at
open_name = refl

opened-IsValid : IsValid opened
opened-IsValid = (omega arith, tt)

name_slash : is_slash name 3 ≡ true
unfolding is_slash
name_slash = refl

open_file-Opened_example : (k : ℕ) × Opened cd name k 1 opened × Chosen cd name k
open_file-Opened_example = open_file-Opened cd name 1 opened open_name

open_file_unmounted_example : open_file root_only [] name ≡ none
open_file_unmounted_example =
    open_file_unmounted root_only name 3 refl (omega arith) (omega arith) name_slash

opened_at : fs_at opened 1 ≡ some (fs_named (b'/' ∷ b'c' ∷ b'd' ∷ []))
unfolding fs_at
opened_at = refl

read-seek_example :
    (v' : Vfs ℕ) × (seek opened 1 7 ≡ some (0, v'))
    × (read v' 1 10 0x9000 ≡ reply v' (some (10, 6)))
    × ((j : ℕ) → 0 ≢ j → get_elem? v'.files j ≡ get_elem? opened.files j)
    × (v'.mounts ≡ opened.mounts)
    × (v'.state ≡ opened.state)
read-seek_example =
    read-seek opened 0 7 10 0x9000 (record { file_num = 5; pos = 0; filesystem = 1 })
      (fs_named (b'/' ∷ b'c' ∷ b'd' ∷ [])) refl opened_at

read-Reached_example :
    (file : File) × (fs : Fs ℕ) × (get_elem? opened.files 0 ≡ some file)
    × (fs_at opened file.filesystem ≡ some fs)
    × (read opened 1 10 0x9000
        ≡ reply opened (fs.fs_read opened.state file.file_num 10 0x9000 file.pos))
unfolding register_fs register_root_fs
read-Reached_example =
    read-Reached opened 0 10 0x9000
      (goes_on
        (goes_on (starts (fs_named (b'/' ∷ [])) 5) (registers (fs_named (b'/' ∷ b'c' ∷ b'd' ∷ []))))
        (opens [] name 1 open_name))
      (omega arith)
