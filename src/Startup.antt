-- ===== src/Startup.antt =====
-- The start of the kernel: initVFS of vfs.c, and _kmain of ckernel.c up to the point where it halts.
-- The answers of the assembly (findMemory, checkForMmap, esp and ebp), the loader's memory and the zeroed
-- variables of the kernel are arguments.
pub mod Discs
pub mod Tests
use myreallyoldkernel.Atapi.{Ports}
use myreallyoldkernel.Atapi.Directory.{Disc}
use myreallyoldkernel.Atapi.Init.{HasDisc, atapi_init}
use myreallyoldkernel.Boot.{start_paging}
use myreallyoldkernel.Gdt.{GdtEntry, GdtState, init_gdt}
use myreallyoldkernel.Idt.{IdtEntry, Handlers, init_idt, setup_irqs}
use myreallyoldkernel.Paging.{Pages, Heap, kmalloc}
use myreallyoldkernel.Prelude.{ℕ, ◌≡◌, refl, Bool, Option, none, some, List, [], ◌∷◌, ◌++◌, ◌>>=◌}
use myreallyoldkernel.Ramfs.{Entries, Ramfs, open_fs, read_fs}
use myreallyoldkernel.Ramfs.Start.{init_ramfs}
use myreallyoldkernel.Tasks.{Store, Tasks, init_tasks}
use myreallyoldkernel.Timer.{init_timer}
use myreallyoldkernel.Vfs.{Text, Fs, Vfs, fs_size, file_size, register_root_fs, open_file}

-- What the file systems share: the heap, the structs of the ram file system, and the drives.
pub record FileState (D : Type 0) : Type 0 where
  pub heap : Heap
  pub entries : Entries
  pub root_dir : ℕ
  pub drives : List ℕ
  pub drive : D

abbrev pub ramfs_of : {D : Type 0} → FileState D → Ramfs
ramfs_of s = record { heap = s.heap; entries = s.entries; root_dir = s.root_dir }

abbrev pub with_ramfs : {D : Type 0} → FileState D → Ramfs → FileState D
with_ramfs s r = record s { heap = r.heap; entries = r.entries; root_dir = r.root_dir }

abbrev pub has_disc : {D : Type 0} → HasDisc (FileState D) D
has_disc = record {
  disc = λ s. record { drives = s.drives; drive = s.drive; heap = s.heap };
  with_disc = λ s d. record s { drives = d.drives; drive = d.drive; heap = d.heap };
  disc_with = λ s d. refl;
}

-- The file system that initramfs registers; fsRead never fails.
unfoldable pub ramfs_fs : {D : Type 0} → ℕ → Fs (FileState D)
unfolding open_fs read_fs
ramfs_fs walk = record {
  bus = 0;
  device = 0;
  mountpoint = b'/' ∷ [];
  fs_open = λ s filename bus drive. open_fs walk (ramfs_of s) filename bus drive >>= λ answer.
      some (answer.0, with_ramfs s answer.1);
  fs_read = λ s num count buf pos.
      let answer = read_fs (ramfs_of s) num count buf pos in some (answer.0, with_ramfs s answer.1);
}

-- initVFS: initramfs with its registration, and the head of the list of files. `text` is the address
-- of the text that initramfs writes to its file.
unfoldable pub init_vfs : {D : Type 0} → ℕ → ℕ → FileState D → Option (Vfs (FileState D))
unfolding init_ramfs ramfs_fs register_root_fs
init_vfs walk text s = do
  r ← init_ramfs walk s.heap s.entries text
  (_, heap1) ← kmalloc r.heap fs_size
  (_, heap2) ← kmalloc heap1 file_size
  some (register_root_fs (ramfs_fs walk) (record (with_ramfs s r) { heap = heap2 }))

-- "/BOOT/GRUB/HELLO.C"
abbrev hello_c : Text
hello_c =
    b'/' ∷ b'B' ∷ b'O' ∷ b'O' ∷ b'T' ∷ b'/' ∷ b'G' ∷ b'R' ∷ b'U' ∷ b'B' ∷ b'/' ∷ b'H' ∷ b'E' ∷ b'L'
    ∷ b'L' ∷ b'O' ∷ b'.' ∷ b'C' ∷ []

-- What the machine and the assembly give the kernel, the zeroed tables of its variables, and bounds of
-- the loops.
pub record BootMachine (D : Type 0) : Type 0 where
  pub ports : Ports D
  pub pages : Pages
  pub multiboot : ℕ
  pub bytes_ram : ℕ
  pub has_mmap : Bool
  pub initial_esp : ℕ
  pub esp : ℕ
  pub ebp : ℕ
  pub gdt_esp : ℕ
  pub gdt : List GdtEntry
  pub idt : List IdtEntry
  pub handlers : Handlers
  pub files : FileState D
  pub text : ℕ
  pub file : ℕ
  pub store : Store
  pub behind : Text
  pub fuel : ℕ
  pub walk : ℕ

-- The kernel where _kmain halts.
pub record Started (D : Type 0) : Type 0 where
  pub gdt : GdtState
  pub idt : List IdtEntry
  pub writes : List (ℕ × ℕ)
  pub tasks : Tasks
  pub vfs : Vfs (FileState D)
  pub buf : ℕ
  pub fd : ℕ

-- _kmain up to `cli;hlt`, which the rest does not pass. The heap goes from one call to the
-- next; open takes the block of its file_t before it looks at the name.
unfoldable pub kmain : {D : Type 0} → BootMachine D → Option (Started D)
unfolding start_paging init_gdt init_idt setup_irqs init_vfs atapi_init init_tasks open_file
kmain b = do
  (_, (directory, heap1)) ←
      start_paging b.fuel b.pages b.multiboot b.bytes_ram b.has_mmap b.initial_esp b.esp b.ebp
  gdt ← init_gdt b.gdt heap1 b.gdt_esp
  let (idt, remaps) = setup_irqs b.handlers (init_idt b.handlers b.idt)
  vfs1 ← init_vfs b.walk b.text (record b.files { heap = gdt.heap })
  vfs2 ← atapi_init b.ports has_disc b.fuel b.walk b.file vfs1
  tasks ← init_tasks (record {
    heap = vfs2.state.heap;
    store = b.store;
    first_task = 0;
    current_task = 0;
    pid = 0;
    page_directory = directory;
  })
  (buf, heap2) ← kmalloc tasks.heap 2048
  (_, heap3) ← kmalloc heap2 file_size
  (fd, vfs3) ←
      open_file (record vfs2 { state = record vfs2.state { heap = heap3 } }) b.behind hello_c
  some (record {
    gdt = gdt;
    idt = idt;
    writes = remaps ++ init_timer;
    tasks = record tasks { heap = vfs3.state.heap };
    vfs = vfs3;
    buf = buf;
    fd = fd;
  })
