-- ===== src/Boot.antt =====
-- The start of paging in paging.c: displayMmap, generatePageTable, moveStack and startPaging. What the
-- boot loader reports is an argument: the amount of memory that findMemory returns, and whether
-- checkForMmap finds a memory map. Loading cr3 has no effect here.
pub mod Bitmap
pub mod Entries
pub mod Tables
pub mod Identity
pub mod Stack
pub mod Tests
use myreallyoldkernel.Bits.{bit_set}
use myreallyoldkernel.Mapping.{map_page}
use myreallyoldkernel.Mapping.Walk.{walk}
use myreallyoldkernel.Memory.{Memory, kmemset, kmemcpy, load32, store32}
use myreallyoldkernel.Paging.{Pages, page_size, alloc_page, Heap, init_heap, ◌+w◌}
use myreallyoldkernel.Prelude.{
  ℕ, zero, suc, ◌+◌, ◌-◌, ◌*◌, ◌/◌, ◌%◌, ◌^◌, bit_or, Bool, ◌&&◌, Option, none, some, List, [], ◌∷◌,
  ltb, leb, ◌==◌, if◌then◌else◌, get_or, set, ◌>>=◌,
}

-- Subtraction of 32-bit registers.
infixl 65 ◌-w◌
abbrev pub ◌-w◌ : ℕ → ℕ → ℕ
a -w b = (a + (2 ^ 32 - b)) % 2 ^ 32

-- `pageBitmap [bit/32] = bitSet (pageBitmap [bit/32], bit%32)`; a write behind the array is passed
-- over.
unfoldable pub mark : List ℕ → ℕ → List ℕ
unfolding bit_set
mark bitmap bit = set bitmap (bit / 32) (bit_set (get_or bitmap (bit / 32) 0) (bit % 32))

-- The loop of displayMmap over the pages of a usable area: the rounds left, and `i`. A page between
-- the kernel and the end of the page tables is marked.
unfoldable pub mark_tables : ℕ → ℕ → ℕ → ℕ → List ℕ → ℕ → List ℕ × ℕ
unfolding mark
mark_tables zero i base tables_end bitmap bit = (bitmap, bit)
mark_tables (suc n) i base tables_end bitmap bit =
    let page = base +w i * 0x1000 in
    let marked = if ltb 0xFFFF page && ltb page tables_end then mark bitmap bit else bitmap in
    mark_tables n (i + 1) base tables_end marked (bit +w 1)

-- The loop over the pages of an area that is not usable.
unfoldable pub mark_all : ℕ → List ℕ → ℕ → List ℕ × ℕ
unfolding mark
mark_all zero bitmap bit = (bitmap, bit)
mark_all (suc n) bitmap bit = mark_all n (mark bitmap bit) (bit +w 1)

-- One entry of the memory map, at `mmap`. A usable area's first bit is passed over.
unfoldable pub mark_area : Memory → ℕ → ℕ → List ℕ × ℕ → List ℕ × ℕ
unfolding mark_tables mark_all load32
mark_area m mmap tables_end (bitmap, bit) =
    let base = load32 m (mmap + 4) in
    let length_low = load32 m (mmap + 12) in
    if load32 m (mmap + 20) == 1
    then mark_tables (length_low / 0x1000 + 1) 0 base tables_end bitmap (bit +w 1)
    else mark_all (length_low / 0x1000) (mark bitmap bit) (bit +w 1)

-- `(int32) a < (int32) b`
abbrev pub signed_ltb : ℕ → ℕ → Bool
signed_ltb a b = ltb ((a + 2 ^ 31) % 2 ^ 32) ((b + 2 ^ 31) % 2 ^ 32)

-- The walk along the memory map. `none` is a map with more entries than the fuel.
unfoldable pub display_areas : ℕ → Memory → ℕ → ℕ → ℕ → List ℕ × ℕ → Option (List ℕ × ℕ)
unfolding mark_area
display_areas zero m mmap end tables_end marked = none
display_areas (suc fuel) m mmap end tables_end marked =
    let rest =
      display_areas fuel m (mmap +w (load32 m mmap + 4)) end tables_end
        (mark_area m mmap tables_end marked) in
    if signed_ltb mmap end then rest else some marked

-- `mmap_length` and `mmap_addr` stand at 44 and 48 of multiboot_info. The page directory is not there
-- yet when startPaging calls this: `directory` is what the global holds.
unfoldable pub display_mmap : ℕ → Pages → ℕ → ℕ → ℕ → Option Pages
unfolding display_areas
display_mmap fuel s mbt directory num_tables =
    let mmap = load32 s.memory (mbt + 48) in
    elim (display_areas fuel s.memory mmap (mmap +w load32 s.memory (mbt + 44))
      (directory +w 0x1000 * num_tables) (s.bitmap, 0)) [
        | none ↦ none
        | some (bitmap, bit) ↦ some (record s { bitmap = bitmap })
      ]

-- kmemset of the bitmap's first bytes, which are the low bytes of its words.
unfoldable pub zero_bytes : ℕ → List ℕ → List ℕ
zero_bytes n [] = []
zero_bytes n (word ∷ words) =
    (if leb 4 n then 0 else word / 256 ^ n * 256 ^ n) ∷ zero_bytes (n - 4) words

unfoldable pub round_tables : ℕ → ℕ
round_tables num_tables = if num_tables % 32 == 0 then num_tables else num_tables +w num_tables % 32

-- The words from the fifth on that stand for video memory and the kernel.
unfoldable pub fill_words : ℕ → ℕ → List ℕ → List ℕ
fill_words zero i bitmap = bitmap
fill_words (suc n) i bitmap = fill_words n (i + 1) (set bitmap i 0xFFFF_FFFF)

-- The bitmap before the first page is taken. With no byte to clear the `loop` of kmemset runs 2 ^ 32
-- rounds and clears all of memory, the running code too: `none`.
unfoldable pub initial_bitmap : List ℕ → ℕ → Option (List ℕ)
unfolding zero_bytes fill_words round_tables mark
initial_bitmap bitmap num_tables =
    let bytes = round_tables num_tables / 32 in
    if bytes == 0 then none else some (mark (fill_words 11 5 (zero_bytes bytes bitmap)) 0)

-- `pageTable [j] = (j*0x1000) | 3`, the rounds left and `j`
unfoldable pub identity_entries : ℕ → ℕ → Memory → ℕ → Memory
unfolding store32
identity_entries zero j m table = m
identity_entries (suc n) j m table =
    identity_entries n (j + 1) (store32 m (table +w 4 * j) (bit_or (j * 0x1000) 3)) table

-- The first entry of the directory, in two steps as in the source.
unfoldable pub enter_table : Memory → ℕ → ℕ → Memory
unfolding store32 load32
enter_table m directory table =
    let entered = store32 m directory table in
    store32 entered directory (bit_or (load32 entered directory) 3)

-- The page directory, and the heap that initHeap makes.
unfoldable pub generate_page_table : Pages → ℕ → Option (ℕ × Heap)
generate_page_table s num_tables = do
  bitmap ← initial_bitmap s.bitmap num_tables
  (directory, s1) ← alloc_page (record s { bitmap = bitmap })
  (table, s2) ← alloc_page s1
  heap ←
      init_heap (record s2 {
        memory = enter_table (identity_entries 512 0 s2.memory table) directory table;
      })
  some (directory, heap)

-- The first loop of moveStack, on physical addresses: the rounds left, and `i`. A word that points into
-- the old stack is moved with it.
unfoldable pub relocate : ℕ → Memory → ℕ → ℕ → ℕ → ℕ → Memory
unfolding load32 store32
relocate zero m i old_esp old_start offset = m
relocate (suc n) m i old_esp old_start offset =
    let word = load32 m i in
    let moved =
      if ltb old_esp word && ltb word old_start then store32 m i (word +w offset) else m in
    relocate n moved (i -w 4) old_esp old_start offset

-- The second loop, on virtual addresses. `none` is a page fault.
unfoldable pub relocate_mapped : ℕ → Memory → ℕ → ℕ → ℕ → ℕ → ℕ → Option Memory
unfolding walk load32 store32
relocate_mapped zero m directory i old_esp old_start offset = some m
relocate_mapped (suc n) m directory i old_esp old_start offset = elim (walk m directory i) [
  | none ↦ none
  | some frame ↦
      let word = load32 m frame in
      let moved =
        if ltb old_esp word && ltb word old_start then store32 m frame (word +w offset) else m in
      relocate_mapped n moved directory (i -w 4) old_esp old_start offset
]

-- The number of rounds of `for (i = high; i > low; i -= 4)`.
abbrev pub rounds : ℕ → ℕ → ℕ
rounds high low = (high - low + 3) / 4

-- moveStack between the reads of esp and ebp and their writes: the registers it leaves. The stack is
-- copied to a page of its own, and that page mapped at the top of a fixed one.
unfoldable pub move_stack : Pages → ℕ → ℕ → ℕ → ℕ → Option ((ℕ × ℕ) × Pages)
move_stack s directory old_start old_esp old_ebp = do
  (page, s1) ← alloc_page s
  let new_start = page +w 0x1000
  let offset = new_start -w old_start
  let new_esp = old_esp +w offset
  let blank = kmemset s1.memory (new_start -w 0x1000) 0 0x1000
  let copied = kmemcpy blank new_esp old_esp (old_start -w old_esp)
  let moved = relocate (rounds new_start new_esp) copied new_start old_esp old_start offset
  s2 ← map_page (record s1 { memory = moved }) directory (new_start -w 0x1000) 0xE000_0000 0 1
  let offset' = 0xE000_1000 -w new_start
  memory ←
      relocate_mapped (rounds 0xE000_0FFC 0xE000_0000) s2.memory directory 0xE000_0FFC new_esp
        new_start offset'
  some ((new_esp +w offset', old_ebp +w offset +w offset'), record s2 { memory = memory })

-- startPaging. The heap that generatePageTable leaves goes on over the pages that are left.
unfoldable pub start_paging : ℕ → Pages → ℕ → ℕ → Bool → ℕ → ℕ → ℕ → Option ((ℕ × ℕ) × (ℕ × Heap))
start_paging fuel s mbt bytes_ram has_mmap old_start esp ebp = do
  let num_tables = bytes_ram / 2 ^ 10 / 4096 + 1
  s1 ← if has_mmap then display_mmap fuel s mbt 0 num_tables else some s
  (directory, heap) ← generate_page_table s1 num_tables
  (input_buf, s2) ← alloc_page heap.pages
  s3 ←
      map_page (record s2 { memory = kmemset s2.memory input_buf 0 0x1000 }) directory input_buf
        0xD000_0000 0 1
  (registers, s4) ← move_stack s3 directory old_start esp ebp
  some (registers, (directory, record heap { pages = s4 }))
