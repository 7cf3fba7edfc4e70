-- ===== src/Atapi/Directory.antt =====
-- findFile of atapi.c: the walk from the root directory of a disc, one sector for each directory. The
-- name that it looks for is kept at address 0, where the code's pointer leads; here it is a list. Paths
-- have no empty part, for which strlen would not be the length.
use myreallyoldkernel.Atapi.{Ports, atapi_read}
use myreallyoldkernel.Memory.{Memory}
use myreallyoldkernel.Paging.{Heap, kmalloc}
use myreallyoldkernel.Prelude.{
  ℕ, zero, suc, ◌+◌, ◌-◌, ◌*◌, ◌^◌, bit_or, Bool, true, false, ◌&&◌, ◌||◌, Option, none, some, List,
  [], ◌∷◌, ◌++◌, ◌==◌, if◌then◌else◌, length, ◌>>=◌,
}
use myreallyoldkernel.Ramfs.{split_name}
use myreallyoldkernel.Vfs.{Text, slash}

-- The drive, the table of the drives that were found, and the kernel's heap with its memory.
pub record Disc (D : Type 0) : Type 0 where
  pub drives : List ℕ
  pub drive : D
  pub heap : Heap

abbrev pub memory_of : {D : Type 0} → Disc D → Memory
memory_of s = s.heap.pages.memory

-- The comparison of a name with the bytes of an entry.
unfoldable pub same_name : Memory → ℕ → Text → Bool
same_name m address [] = true
same_name m address (c ∷ name) = m address == c && same_name m (address + 1) name

-- The while loop over the entries of a directory in `buf`: the offset of the one with the name, or none
-- of them. The outer `none` is a directory with more entries than the fuel.
unfoldable pub search_dir : ℕ → Memory → ℕ → ℕ → Text → Option (Option ℕ)
unfolding same_name
search_dir zero m buf addr name = none
search_dir (suc fuel) m buf addr name =
    let size = m (buf + addr) in
    let next = search_dir fuel m buf (addr + size) name in
    if size == 0
    then some none
    else if m (buf + addr + 32) == length name && same_name m (buf + addr + 33) name
    then some (some addr)
    else next

-- Four bytes put together, the lowest first.
abbrev pub join_bytes : ℕ → ℕ → ℕ → ℕ → ℕ
join_bytes a b c d = bit_or (bit_or (bit_or a (b * 2 ^ 8)) (c * 2 ^ 16)) (d * 2 ^ 24)

-- The block of an entry's data.
unfoldable pub entry_lba : Memory → ℕ → ℕ
entry_lba m entry = join_bytes (m (entry + 2)) (m (entry + 3)) (m (entry + 4)) (m (entry + 5))

-- The block of the root directory: the bytes at 156+2, 157+3, 158+4 and 159+5 of the descriptor.
unfoldable pub root_lba : Memory → ℕ → ℕ
root_lba m buf = join_bytes (m (buf + 158)) (m (buf + 160)) (m (buf + 162)) (m (buf + 164))

unfoldable pub has_dot : Text → Bool
has_dot [] = false
has_dot (c ∷ name) = c == b'.' || has_dot name

-- The name to look for: a file's has a version behind it.
abbrev pub iso_name : ℕ → Text → Text
iso_name file part = if file == 1 then part ++ b';' ∷ b'1' ∷ [] else part

module _ {D : Type 0} (ports : Ports D) where
  -- A read of a sector into the buffer; the number that it returns is dropped.
  unfoldable pub load_sector : Disc D → ℕ → ℕ → Option (Disc D)
  load_sector s lba buf = do
    (_, p) ← atapi_read ports s.drives s.drive (memory_of s) lba 2048 buf 0
    some (record s {
      drive = p.drive;
      heap = record s.heap { pages = record s.heap.pages { memory = p.memory } };
    })

  -- The for loop over the path. `file` is the local variable, which a part with a dot sets for good. A
  -- part that is not found is passed over.
  unfoldable pub find_in : ℕ → ℕ → Disc D → ℕ → ℕ → Text → Option (ℕ × Disc D)
  unfolding search_dir entry_lba has_dot
  find_in walk fuel s buf file [] = some (2 ^ 32 - 1, s)
  find_in walk zero s buf file (c ∷ path) = none
  find_in walk (suc fuel) s buf file (c ∷ path) =
      let parts = split_name path in
      let file' = if has_dot parts.0 then 1 else file in
      let skip = find_in walk fuel s buf file path in
      let missing = find_in walk fuel s buf file' parts.1 in
      let in_part = search_dir walk (memory_of s) buf 0 (iso_name file' parts.0) >>= λ found.
      elim found [
        | none ↦ missing
        | some addr ↦
            let lba = entry_lba (memory_of s) (buf + addr) in
            let entered = load_sector s lba buf >>= λ s'. find_in walk fuel s' buf file' parts.1 in
            if file' == 1 then some (lba, s) else entered
      ] in
      if c == slash then in_part else skip

  -- findFile; `file` is what its variable of that name happens to hold. The bus and the device that it
  -- is given are not used.
  unfoldable pub find_file : ℕ → ℕ → Disc D → Text → ℕ → ℕ → Option (ℕ × Disc D)
  unfolding root_lba find_in
  find_file walk file s filename bus device = do
    (buf, heap) ← kmalloc s.heap 2048
    described ← load_sector (record s { heap = heap }) 0x10 buf
    opened ← load_sector described (root_lba (memory_of described) buf) buf
    find_in walk (length filename) opened buf file filename
