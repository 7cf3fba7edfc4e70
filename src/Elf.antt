-- ===== src/Elf.antt =====
-- The program loader of elf.c: loadELF, loadBin, exec. What it does to the kernel's heap, to the open
-- files and to the page tables is computed; what it writes through a program's own addresses,
-- which stand for the pages just mapped, is its answer, as a list of the writes in their order.
pub mod Load
pub mod Image
pub mod Tests
use myreallyoldkernel.Memory.{Memory, move_data, kmemcpy, load32, store32}
use myreallyoldkernel.Paging.{Heap, alloc_page, kmalloc, page_size, ◌+w◌}
use myreallyoldkernel.Boot.{◌-w◌}
use myreallyoldkernel.Prelude.{
  ℕ, zero, suc, ◌+◌, ◌-◌, ◌*◌, ◌/◌, ◌%◌, ◌^◌, bit_and, Bool, ◌&&◌, Option, none, some, List, [],
  ◌∷◌, ◌++◌, ltb, ◌==◌, if◌then◌else◌, ◌>>=◌,
}
use myreallyoldkernel.Tasks.{Tasks, getpid, map_task_page}
use myreallyoldkernel.Vfs.{Text, Vfs, open_file, read}

abbrev pub load16 : Memory → ℕ → ℕ
load16 m a = m a + 256 * m (a + 1)

-- `elfHeader_t`
pub record ElfHeader : Type 0 where
  pub e_ident : ℕ → ℕ
  pub e_type : ℕ
  pub e_machine : ℕ
  pub e_version : ℕ
  pub e_entry : ℕ
  pub e_phoff : ℕ
  pub e_shoff : ℕ
  pub e_flags : ℕ
  pub e_ehsize : ℕ
  pub e_phentsize : ℕ
  pub e_phnum : ℕ
  pub e_shentsize : ℕ
  pub e_shnum : ℕ
  pub e_shstrndx : ℕ

abbrev pub elf_header_size : ℕ
elf_header_size = 52

-- sizeof (section_t); its fields are only read in comments.
abbrev pub section_size : ℕ
section_size = 40

unfoldable pub elf_header : Memory → ℕ → ElfHeader
unfolding load32
elf_header m at = record {
  e_ident = λ i. m (at + i);
  e_type = load16 m (at + 16);
  e_machine = load16 m (at + 18);
  e_version = load32 m (at + 20);
  e_entry = load32 m (at + 24);
  e_phoff = load32 m (at + 28);
  e_shoff = load32 m (at + 32);
  e_flags = load32 m (at + 36);
  e_ehsize = load16 m (at + 40);
  e_phentsize = load16 m (at + 42);
  e_phnum = load16 m (at + 44);
  e_shentsize = load16 m (at + 46);
  e_shnum = load16 m (at + 48);
  e_shstrndx = load16 m (at + 50);
}

abbrev pub is_elf : ElfHeader → Bool
is_elf h = h.e_ident 0 == 0x7F && h.e_ident 1 == b'E' && h.e_ident 2 == b'L' && h.e_ident 3 == b'F'

-- `programHeader_t`
pub record ProgramHeader : Type 0 where
  pub p_type : ℕ
  pub p_offset : ℕ
  pub p_vaddr : ℕ
  pub p_paddr : ℕ
  pub p_filesz : ℕ
  pub p_memsz : ℕ
  pub p_flags : ℕ
  pub p_align : ℕ

abbrev pub program_header_size : ℕ
program_header_size = 32

unfoldable pub program_header : Memory → ℕ → ProgramHeader
unfolding load32
program_header m at = record {
  p_type = load32 m at;
  p_offset = load32 m (at + 4);
  p_vaddr = load32 m (at + 8);
  p_paddr = load32 m (at + 12);
  p_filesz = load32 m (at + 16);
  p_memsz = load32 m (at + 20);
  p_flags = load32 m (at + 24);
  p_align = load32 m (at + 28);
}

-- `ph [i]`, through the array of pointers.
unfoldable pub header_at : Memory → ℕ → ℕ → ProgramHeader
header_at m table i = program_header m (load32 m (table +w 4 * i))

-- One entry of a table of the file: copied to `scratch`, and from there to a block of its own, whose
-- address becomes element `i` of `table`. `source` is the table in the buffer, `size` the length of
-- its entries, `block` that of the struct.
unfoldable pub load_entry : Heap → ℕ → ℕ → ℕ → ℕ → ℕ → ℕ → Option Heap
unfolding kmalloc
load_entry heap scratch table source size block i = do
  let memory = move_data size heap.pages.memory scratch (source +w size * i)
  (at, heap') ← kmalloc (record heap { pages = record heap.pages { memory = memory } }) block
  let linked = store32 heap'.pages.memory (table +w 4 * i) at
  some (record heap' { pages = record heap'.pages { memory = kmemcpy linked at scratch size } })

-- The loop over the sections: the rounds left, and `i`.
unfoldable pub load_sections : ℕ → ℕ → Heap → ℕ → ℕ → ℕ → ℕ → Option Heap
unfolding load_entry
load_sections zero i heap scratch table source size = some heap
load_sections (suc n) i heap scratch table source size = do
  heap' ← load_entry heap scratch table source size section_size i
  load_sections n (i + 1) heap' scratch table source size

-- The loop over the program headers, which keeps the number of the one with the highest address.
unfoldable pub load_headers : ℕ → ℕ → ℕ → Heap → ℕ → ℕ → ℕ → ℕ → Option (ℕ × Heap)
unfolding load_entry header_at
load_headers zero i highest heap scratch table source size = some (highest, heap)
load_headers (suc n) i highest heap scratch table source size = do
  heap' ← load_entry heap scratch table source size program_header_size i
  let m = heap'.pages.memory
  let higher = ltb (header_at m table highest).p_vaddr (header_at m table i).p_vaddr
  load_headers n (i + 1) (if higher then i else highest) heap' scratch table source size

abbrev pub image_base : ℕ
image_base = 0x0040_0000

-- `mapTaskPage (getpid (), allocPage (), (void *) (0x00400000 + (0x1000*i)))`, and a bound of the walk
-- over the tasks. The answer of mapTaskPage is dropped.
unfoldable pub map_image_page : ℕ → ℕ → Tasks → Option Tasks
unfolding map_task_page getpid
map_image_page walk i s = do
  (page, pages) ← alloc_page s.heap.pages
  let s' : Tasks = record s { heap = record s.heap { pages = pages } }
  (_, mapped) ← map_task_page walk s' (getpid s') page (image_base +w page_size * i)
  some mapped

-- The rounds left, and `i`.
unfoldable pub map_pages : ℕ → ℕ → ℕ → Tasks → Option Tasks
unfolding map_image_page
map_pages walk zero i s = some s
map_pages walk (suc n) i s = map_image_page walk i s >>= map_pages walk n (i + 1)

-- The pages of the image up to `top`: the loop, and one more page for a rest.
unfoldable pub map_image : ℕ → ℕ → Tasks → Option Tasks
unfolding map_pages map_image_page
map_image walk top s =
    let bytes = top -w image_base in
    map_pages walk (bytes / page_size) 0 s >>= λ s'.
    if bytes % page_size == 0 then some s' else map_image_page walk (bytes / page_size) s'

-- A write through a program's addresses: bytes of an open file, or a kmemcpy.
pub data UserWrite : Type 0 where
  reads : (fd count address : ℕ) → UserWrite
  copies : (dst src count : ℕ) → UserWrite

-- The writes done in their order, with `file` for what a read of an open file writes.
unfoldable pub run_writes : (ℕ → ℕ → ℕ → Memory → Memory) → List UserWrite → Memory → Memory
run_writes file [] m = m
run_writes file (reads fd count address ∷ writes) m =
    run_writes file writes (file fd count address m)
run_writes file (copies dst src count ∷ writes) m = run_writes file writes (kmemcpy m dst src count)

-- The two reads of the first segment, and the padding between it and the second one.
unfoldable pub user_writes : ℕ → ProgramHeader → ProgramHeader → List UserWrite
user_writes fd first second =
    let page_line = bit_and second.p_vaddr 0xFFFF_F000 in
    let data_pad_len = page_line -w (first.p_vaddr +w first.p_memsz) in
    let text_pad_len = second.p_vaddr -w page_line in
    let rest =
      if ltb 0 text_pad_len
      then copies page_line ((page_line -w data_pad_len) -w text_pad_len) text_pad_len ∷ []
      else [] in
    reads fd first.p_filesz first.p_vaddr
    ∷ reads fd first.p_filesz first.p_vaddr
    ∷ copies (page_line -w data_pad_len) (page_line +w text_pad_len) data_pad_len
    ∷ rest
