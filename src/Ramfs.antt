-- ===== src/Ramfs.antt =====
-- The file system in memory of ramfs.c: directories as lists of dirEntry_t structs, in the kernel's
-- heap. An entry lives at the address that kmalloc returned for it; `entries` is the entries by
-- address, with some entry at every address, since the code reads one through the end mark -1.
pub mod Files
pub mod Tree
pub mod Find
pub mod Grow
pub mod Place
pub mod Make
pub mod NewDir
pub mod MakeDir
pub mod Start
pub mod Tests
use myreallyoldkernel.Memory.{Memory, store8}
use myreallyoldkernel.Paging.{Heap, kmalloc, ◌+w◌}
use myreallyoldkernel.Prelude.{
  ℕ, zero, suc, ◌+◌, ◌-◌, ◌^◌, Bool, true, false, ◌&&◌, not, Option, none, some, List, [], ◌∷◌,
  ◌==◌, if◌then◌else◌, length, ◌>>=◌,
}
use myreallyoldkernel.Vfs.{Text, slash, strcmp}

-- `dirEntry_t`. A name is the string that its pointer names; the code stores pointers to constants.
pub record DirEntry : Type 0 where
  pub next_dir : ℕ
  pub extent : ℕ
  pub name : Text
  pub file : ℕ

-- Three pointers and a byte, padded to a multiple of 4.
abbrev pub entry_size : ℕ
entry_size = 16

-- `(dirEntry_t *) -1`
abbrev pub end_mark : ℕ
end_mark = 2 ^ 32 - 1

abbrev pub Entries : Type 0
Entries = ℕ → DirEntry

unfoldable pub store_entry : Entries → ℕ → DirEntry → Entries
store_entry entries at entry address = if address == at then entry else entries address

pub record Ramfs : Type 0 where
  pub heap : Heap
  pub entries : Entries
  pub root_dir : ℕ

-- A part of a path up to a slash or the end, and what is left from there.
unfoldable pub split_name : Text → Text × Text
split_name [] = ([], [])
split_name (c ∷ path) =
    let rest = split_name path in if c == slash then ([], c ∷ path) else (c ∷ rest.0, rest.1)

-- `if (dir [i] == '/') i++;`
unfoldable pub skip_slash : Text → Text
skip_slash [] = []
skip_slash (c ∷ path) = if c == slash then path else c ∷ path

-- The `i++` of the for loop, on the slash behind the name.
unfoldable pub tail : Text → Text
tail [] = []
tail (c ∷ path) = path

-- The inner while loop: the entry of a list with a name, or the end mark. The name is tested before
-- the mark, so that an entry at the mark's own address is read.
unfoldable pub find_entry : ℕ → Entries → Text → ℕ → Option ℕ
unfolding strcmp
find_entry zero entries name dir = none
find_entry (suc fuel) entries name dir =
    let rest = find_entry fuel entries name (entries dir).next_dir in
    if not (strcmp (entries dir).name name == 0) && not (dir == end_mark) then rest else some dir

-- The for loop, over what is left of the path. `fuel` bounds the rounds, `walk` the entries of one
-- list.
unfoldable pub find_path : ℕ → ℕ → Entries → Text → ℕ → Option ℕ
unfolding split_name skip_slash tail find_entry
find_path fuel walk entries [] dir = some dir
find_path zero walk entries (c ∷ path) dir = none
find_path (suc fuel) walk entries (c ∷ path) dir =
    let parts = split_name (skip_slash (c ∷ path)) in
    elim (find_entry walk entries parts.0 dir) [
      | none ↦ none
      | some found ↦
          let rest = find_path fuel walk entries (tail parts.1) (entries found).extent in
          if not (strcmp (entries found).name parts.0 == 0)
          then some end_mark
          else if (entries found).file == 1
          then some found
          else rest
    ]

-- findDir takes 25 bytes of the heap for the current name and never gives them back. The name that it
-- builds there is a list here, so what a name of more than 24 characters overruns is not modelled.
unfoldable pub find_dir : ℕ → Ramfs → Text → Option (ℕ × Ramfs)
unfolding find_path
find_dir walk s dir = elim (kmalloc s.heap 25) [
  | none ↦ none
  | some (dir_name, heap) ↦
      let s' : Ramfs = record s { heap = heap } in
      if strcmp dir (slash ∷ []) == 0
      then some (s.root_dir, s')
      else elim (find_path (length dir) walk s.entries dir s.root_dir) [
        | none ↦ none
        | some found ↦ some (found, s')
      ]
]

unfoldable pub open_fs : ℕ → Ramfs → Text → ℕ → ℕ → Option (ℕ × Ramfs)
unfolding find_dir
open_fs walk s filename bus drive = find_dir walk s filename

-- A struct of the heap with all its fields set.
unfoldable pub new_entry : Ramfs → (ℕ → DirEntry) → Option (ℕ × Ramfs)
unfolding store_entry
new_entry s fields = elim (kmalloc s.heap entry_size) [
  | none ↦ none
  | some (entry, heap) ↦
      some (entry, record s { heap = heap; entries = store_entry s.entries entry (fields entry) })
]

-- The last entry of a list.
unfoldable pub last_entry : ℕ → Entries → ℕ → Option ℕ
last_entry zero entries dir = none
last_entry (suc fuel) entries dir =
    let rest = last_entry fuel entries (entries dir).next_dir in
    if (entries dir).next_dir == end_mark then some dir else rest

-- The walk to the end of a directory, and the new entry linked there.
unfoldable pub append_entry : ℕ → Ramfs → ℕ → ℕ → Option Ramfs
unfolding last_entry store_entry
append_entry walk s dir entry = elim (last_entry walk s.entries dir) [
  | none ↦ none
  | some last ↦ some (record s {
    entries = store_entry s.entries last (record (s.entries last) { next_dir = entry });
  })
]

-- The entry "." of a new directory, whose next entry is ".." of the parent.
unfoldable pub new_root : Ramfs → (ℕ → ℕ) → Option (ℕ × Ramfs)
unfolding new_entry store_entry
new_root s parent = do
  (dot, s1) ← new_entry s (λ here. record {
    next_dir = (s.entries here).next_dir;
    extent = here;
    name = b'.' ∷ [];
    file = 0;
  })
  (dots, s2) ← new_entry s1 (λ here. record {
    next_dir = end_mark;
    extent = parent dot;
    name = b'.' ∷ b'.' ∷ [];
    file = 0;
  })
  some (
    dot,
    record s2 {
      entries = store_entry s2.entries dot (record (s2.entries dot) { next_dir = dots });
    },
  )

unfoldable pub mk_dir : ℕ → Ramfs → Text → Text → Option Ramfs
unfolding find_dir new_root append_entry new_entry
mk_dir walk s parent_name name = do
  (parent, s1) ← find_dir walk s parent_name
  (dot, s2) ← new_root s1 (λ _. parent)
  (dir, s3) ←
      new_entry s2 (λ here. record { next_dir = end_mark; extent = dot; name = name; file = 0 })
  append_entry walk s3 parent dir

-- A file has 2048 bytes, whatever is written to it.
unfoldable pub mk_file : ℕ → Ramfs → Text → Text → Option Ramfs
unfolding find_dir append_entry store_entry
mk_file walk s dir_name name = do
  (dir, s1) ← find_dir walk s dir_name
  (new, heap1) ← kmalloc s1.heap entry_size
  (extent, heap2) ← kmalloc heap1 2048
  append_entry walk
      (record s1 {
        heap = heap2;
        entries =
            store_entry s1.entries new
              (record { next_dir = end_mark; extent = extent; name = name; file = 1 });
      })
      dir new

-- The loop of writeFS and readFS: `dst [i] = src [i + pos]` for the rounds left.
unfoldable pub copy_bytes : ℕ → ℕ → Memory → ℕ → ℕ → ℕ → Memory
unfolding store8
copy_bytes zero i m dst src pos = m
copy_bytes (suc n) i m dst src pos =
    copy_bytes n (i + 1) (store8 m (dst +w i) (m (src +w (i + pos)))) dst src pos

abbrev pub with_memory : Ramfs → Memory → Ramfs
with_memory s m = record s { heap = record s.heap { pages = record s.heap.pages { memory = m } } }

unfoldable pub write_fs : Ramfs → ℕ → ℕ → ℕ → ℕ × Ramfs
unfolding copy_bytes
write_fs s file_num count buf =
    (0, with_memory s (copy_bytes count 0 s.heap.pages.memory (s.entries file_num).extent buf 0))

unfoldable pub read_fs : Ramfs → ℕ → ℕ → ℕ → ℕ → ℕ × Ramfs
unfolding copy_bytes
read_fs s file_num count buf pos =
    (0, with_memory s (copy_bytes count 0 s.heap.pages.memory buf (s.entries file_num).extent pos))
