-- ===== src/Elf/Load.antt =====
-- loadELF, loadBin and exec over the open files, the heap and the tasks.
use myreallyoldkernel.Memory.{move_data}
use myreallyoldkernel.Paging.{Heap, kmalloc, ◌+w◌}
use myreallyoldkernel.Prelude.{
  ℕ, ◌-◌, ◌*◌, ◌^◌, Option, some, List, [], ◌∷◌, ◌++◌, ◌==◌, if◌then◌else◌, ◌>>=◌,
}
use myreallyoldkernel.Tasks.{Tasks}
use myreallyoldkernel.Vfs.{Text, Vfs, open_file, read}
use myreallyoldkernel.Elf.{
  ElfHeader, elf_header_size, elf_header, is_elf, header_at, load_sections, load_headers,
  image_base, map_image_page, map_image, UserWrite, user_writes, copies,
}

-- The kernel as the loader sees it. The files have a heap of their own in the state `S` of the file
-- systems; it is the one of the tasks, which `Shared` puts in before a call and takes out behind it.
pub record Shared (S : Type 0) : Type 0 where
  pub heap_of : S → Heap
  pub with_heap : S → Heap → S

-- `end` is the global of elf.h.
pub record Loader (S : Type 0) : Type 0 where
  pub tasks : Tasks
  pub vfs : Vfs S
  pub end : ℕ

-- `loaded` has the entry point; `failed` is the answer -1.
pub data Loaded : Type 0 where
  failed : Loaded
  loaded : ℕ → List UserWrite → Loaded

module _ {S : Type 0} (shared : Shared S) where
  unfoldable pub heap_in : Loader S → Vfs S
  heap_in s = record s.vfs { state = shared.with_heap s.vfs.state s.tasks.heap }

  unfoldable pub heap_out : Loader S → Vfs S → Loader S
  heap_out s vfs = record s {
    vfs = vfs;
    tasks = record s.tasks { heap = shared.heap_of vfs.state };
  }

  abbrev with_tasks_heap : Loader S → Heap → Loader S
  with_tasks_heap s heap = record s { tasks = record s.tasks { heap = heap } }

  -- The file opened, and its first 2048 bytes read into a block of the heap: the descriptor and the
  -- block. The answer of read is dropped.
  unfoldable pub open_and_read : Text → Loader S → Text → Option ((ℕ × ℕ) × Loader S)
  unfolding heap_in heap_out
  open_and_read behind s path = do
    (fd, vfs) ← open_file (heap_in s) behind path
    let s1 = heap_out s vfs
    (buf, heap) ← kmalloc s1.tasks.heap 2048
    let s2 = with_tasks_heap s1 heap
    (_, vfs') ← read (heap_in s2) fd 2048 buf
    some ((fd, buf), heap_out s2 vfs')

  -- loadELF behind the test of the magic number.
  unfoldable pub load_image : ℕ → Loader S → ℕ → ℕ → ElfHeader → Option (Loaded × Loader S)
  unfolding load_sections load_headers header_at map_image user_writes
  load_image walk s fd buf h = do
    (buf3, heap1) ← kmalloc s.tasks.heap h.e_shentsize
    (section, heap2) ← kmalloc heap1 (4 * h.e_shnum)
    heap3 ← load_sections h.e_shnum 0 heap2 buf3 section (buf +w h.e_shoff) h.e_shentsize
    (buf4, heap4) ← kmalloc heap3 h.e_phentsize
    (ph, heap5) ← kmalloc heap4 (4 * h.e_phnum)
    (highest, heap6) ← load_headers h.e_phnum 0 0 heap5 buf4 ph (buf +w h.e_phoff) h.e_phentsize
    let last = header_at heap6.pages.memory ph highest
    tasks ← map_image walk (last.p_vaddr +w last.p_memsz) (record s.tasks { heap = heap6 })
    let first = header_at tasks.heap.pages.memory ph 0
    let second = header_at tasks.heap.pages.memory ph 1
    some (
      loaded h.e_entry (user_writes fd first second),
      record s { tasks = tasks; end = second.p_vaddr +w second.p_memsz },
    )

  -- loadELF. The header is read once, from its copy in a block of its own.
  unfoldable pub load_elf : ℕ → Text → Loader S → Text → Option (Loaded × Loader S)
  unfolding open_and_read elf_header load_image
  load_elf walk behind s path = do
    ((fd, buf), s1) ← open_and_read behind s path
    (buf2, heap) ← kmalloc s1.tasks.heap elf_header_size
    let memory = move_data elf_header_size heap.pages.memory buf2 buf
    let s2 = with_tasks_heap s1 (record heap { pages = record heap.pages { memory = memory } })
    let h = elf_header memory buf2
    if is_elf h then load_image walk s2 fd buf h else some (failed, s2)

  -- loadBin: its copy goes to the program's addresses.
  unfoldable pub load_bin : Text → Loader S → Text → Option (List UserWrite × Loader S)
  unfolding open_and_read
  load_bin behind s path = do
    ((_, buf), s1) ← open_and_read behind s path
    some (copies image_base buf 2048 ∷ [], s1)

  -- What exec does when loadELF answers -1: one page at 0x00400000, and the file as it is.
  unfoldable pub load_raw :
      ℕ → Text → Text → List UserWrite → Loader S → Option ((ℕ × List UserWrite) × Loader S)
  unfolding map_image_page load_bin
  load_raw walk behind path written s = do
    tasks ← map_image_page walk 0 s.tasks
    (writes, s') ← load_bin behind (record s { tasks = tasks }) path
    some ((image_base, written ++ writes), s')

  -- The rest of exec: where the program starts, and what was written for it. An entry point of -1 is
  -- taken for a failure.
  unfoldable pub start_program :
      ℕ → Text → Text → Loaded × Loader S → Option ((ℕ × List UserWrite) × Loader S)
  unfolding load_raw
  start_program walk behind path (failed, s) = load_raw walk behind path [] s
  start_program walk behind path (loaded entry writes, s) =
      let raw = load_raw walk behind path writes s in
      if entry == 2 ^ 32 - 1 then raw else some ((entry, writes), s)

  unfoldable pub exec : ℕ → Text → Loader S → Text → Option ((ℕ × List UserWrite) × Loader S)
  unfolding load_elf start_program
  exec walk behind s path = load_elf walk behind s path >>= start_program walk behind path
