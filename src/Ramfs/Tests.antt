-- ===== src/Ramfs/Tests.antt =====
-- A file of the ram file system written and read.
use myreallyoldkernel.Paging.Tests.{heap}
use myreallyoldkernel.Prelude.{ℕ, ◌+◌, ◌≤◌, ◌<◌, ◌≡◌, ◌⊎◌, inl, inr, arith, []}
use myreallyoldkernel.Ramfs.{Ramfs, read_fs, write_fs}
use myreallyoldkernel.Ramfs.{end_mark, entry_size, find_dir, mk_file, mk_dir}
use myreallyoldkernel.Ramfs.Find.{find_dir-Steps}
use myreallyoldkernel.Ramfs.Make.{mk_file-Walks}
use myreallyoldkernel.Ramfs.MakeDir.{mk_dir-Leads}
use myreallyoldkernel.Ramfs.NewDir.{Blocks, dot_name, dots_name, dot_ne_dots, WithDir}
use myreallyoldkernel.Ramfs.Place.{Place, IsNew}
use myreallyoldkernel.Ramfs.Tree.{path_of, Walks, Leads, Closed}
use myreallyoldkernel.Paging.{Heap, kmalloc, bump}
use myreallyoldkernel.Prelude.{false, List, ◌∷◌, ◌≢◌, ◌==◌, if◌then◌else◌, refl, some}
use myreallyoldkernel.Vfs.{Text}
use myreallyoldkernel.Ramfs.Files.{memory_of, read_fs-write_fs}

-- One file, whose bytes start at 0x8000.
abbrev files : Ramfs
files = record {
  heap = heap;
  entries = λ _. record { next_dir = 0; extent = 0x8000; name = []; file = 1 };
  root_dir = 0;
}

read_fs-write_fs_example :
    ((j : ℕ)
      → j < 20
      → memory_of (read_fs (write_fs files 4 100 0x9000).1 4 20 0x9800 5) (0x9800 + j)
        ≡ heap.pages.memory (0x9000 + 5 + j))
    × ((b : ℕ)
        → (b < 0x8000) ⊎ (0x8000 + 100 ≤ b)
        → (b < 0x9800) ⊎ (0x9800 + 20 ≤ b)
        → memory_of (read_fs (write_fs files 4 100 0x9000).1 4 20 0x9800 5) b ≡ heap.pages.memory b)
read_fs-write_fs_example =
    read_fs-write_fs files 4 100 0x9000 20 5 0x9800 (omega arith) (omega arith) (omega arith)
      (omega arith) (inl (omega arith)) (inr (omega arith))

-- The root directory, with "." at 0x1000 and ".." at 0x1010.
abbrev empty_root : Ramfs
empty_root = record {
  heap = record heap { next_address = 0x1020; end_of_page = 0x2000 };
  entries = λ a. record {
    next_dir = if a == 0x1000 then 0x1010 else end_mark;
    extent = 0x1000;
    name = if a == 0x1000 then dot_name else dots_name;
    file = 0;
  };
  root_dir = 0x1000;
}

abbrev Used : ℕ → Type 0
Used a = (a ≡ 0x1000) ⊎ (a ≡ 0x1010)

empty_root-Closed : Closed empty_root.entries 0x1000 Used
empty_root-Closed = record {
  holds_root = inl refl;
  next = λ a i. elim i [ inl e ↦ inr (inr (rw e refl)) | inr e ↦ inl (rw e refl) ];
  extent = λ a i dir. inl refl;
  no_mark = λ i. elim i [ inl e ↦ absurd (omega arith) | inr e ↦ absurd (omega arith) ];
}

abbrev test : Text
test = b't' ∷ b'e' ∷ b's' ∷ b't' ∷ []

not_dot : dot_name ≢ test
not_dot e = absurd (ground arith)

not_dots : dots_name ≢ test
not_dots e = absurd (ground arith)

-- Room for "test" in the root directory.
empty_root-Place : Place 5 empty_root [] test Used
empty_root-Place = record {
  d = 0x1000;
  last = 0x1010;
  n = 1;
  closed = empty_root-Closed;
  are_names = tt;
  leads = refl;
  lacks = (λ e. absurd (omega arith), not_dot, (refl, λ e. absurd (omega arith), not_dots, refl));
  near = omega arith;
}

unused : (a : ℕ) → 0x1010 < a → a < 0x2000 → IsNew Used a
unused a lo hi = record {
  unused = λ i. elim i [ inl e ↦ absurd (omega arith) | inr e ↦ absurd (omega arith) ];
  no_mark = λ e. absurd (omega arith);
}

abbrev heap_at : ℕ → Heap
heap_at next = record heap { next_address = next; end_of_page = 0x2000 }

block_25 : kmalloc (heap_at 0x1020) 25 ≡ some (0x1020, heap_at 0x1039)
unfolding kmalloc bump
block_25 = refl

to_parent : Leads 5 empty_root.entries (dots_name ∷ []) 0x1000 0x1000
to_parent = (
  0x1010,
  1,
  omega arith,
  (λ e. absurd (omega arith), dot_ne_dots, (refl, λ e. absurd (omega arith), refl)),
  inr (λ e. absurd (omega arith), refl),
)

find_dir-Steps_example :
    find_dir 5 empty_root (path_of (dots_name ∷ []))
    ≡ some (0x1000, record empty_root { heap = heap_at 0x1039 })
find_dir-Steps_example =
    find_dir-Steps false 5 empty_root (dots_name ∷ []) 0x1000 0x1020 (heap_at 0x1039)
      (((λ e. absurd (omega arith), (λ e. absurd (omega arith), tt))), tt) to_parent block_25

block_file : kmalloc (heap_at 0x1039) entry_size ≡ some (0x1039, heap_at 0x1049)
unfolding kmalloc bump
block_file = refl

block_extent : kmalloc (heap_at 0x1049) 2048 ≡ some (0x1049, heap_at 0x1849)
unfolding kmalloc bump
block_extent = refl

mk_file-Walks_example :
    (s' : Ramfs) × (mk_file 5 empty_root (path_of []) test ≡ some s')
    × Walks 5 s'.entries (test ∷ []) s'.root_dir 0x1039
    × (s'.entries 0x1039 ≡ record { next_dir = end_mark; extent = 0x1049; name = test; file = 1 })
    × ((path : List Text) (end : ℕ)
        → Walks 5 empty_root.entries path 0x1000 end
        → Walks 5 s'.entries path s'.root_dir end)
    × Closed s'.entries s'.root_dir (λ a. Used a ⊎ (a ≡ 0x1039))
    × (s'.heap ≡ heap_at 0x1849)
mk_file-Walks_example =
    mk_file-Walks 5 empty_root [] test Used 0x1020 0x1039 0x1049 (heap_at 0x1039) (heap_at 0x1049)
      (heap_at 0x1849) empty_root-Place block_25 block_file block_extent
      (unused 0x1039 (omega arith) (omega arith))

block_dots : kmalloc (heap_at 0x1049) entry_size ≡ some (0x1049, heap_at 0x1059)
unfolding kmalloc bump
block_dots = refl

block_dir : kmalloc (heap_at 0x1059) entry_size ≡ some (0x1059, heap_at 0x1069)
unfolding kmalloc bump
block_dir = refl

test_blocks : Blocks empty_root Used
test_blocks = record {
  text = 0x1020;
  dot = 0x1039;
  dots = 0x1049;
  dir = 0x1059;
  heap1 = heap_at 0x1039;
  heap2 = heap_at 0x1049;
  heap3 = heap_at 0x1059;
  heap4 = heap_at 0x1069;
  got1 = block_25;
  got2 = block_file;
  got3 = block_dots;
  got4 = block_dir;
  new_dot = unused 0x1039 (omega arith) (omega arith);
  new_dots = unused 0x1049 (omega arith) (omega arith);
  new_dir = unused 0x1059 (omega arith) (omega arith);
  dot_dots = λ e. absurd (omega arith);
  dot_dir = λ e. absurd (omega arith);
  dots_dir = λ e. absurd (omega arith);
}

mk_dir-Leads_example :
    (s' : Ramfs) × (mk_dir 5 empty_root (path_of []) test ≡ some s')
    × Leads 5 s'.entries (test ∷ []) s'.root_dir test_blocks.dot
    × Leads 5 s'.entries (test ∷ dots_name ∷ []) s'.root_dir empty_root-Place.d
    × ((path : List Text) (end : ℕ)
        → Walks 5 empty_root.entries path 0x1000 end
        → Walks 5 s'.entries path s'.root_dir end)
    × Closed s'.entries s'.root_dir (WithDir Used test_blocks.dot test_blocks.dots test_blocks.dir)
    × (s'.heap ≡ test_blocks.heap4)
mk_dir-Leads_example = mk_dir-Leads 5 empty_root [] test Used empty_root-Place test_blocks
