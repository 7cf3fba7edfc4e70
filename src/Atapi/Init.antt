-- ===== src/Atapi/Init.antt =====
-- atapiInit: which of the four positions has a drive, and the file system that a disc drive gets.
use myreallyoldkernel.Atapi.{Ports, wait_not_busy, wait_request, select, atapi_read}
use myreallyoldkernel.Atapi.Directory.{Disc, memory_of, find_file}
use myreallyoldkernel.Paging.{kmalloc}
use myreallyoldkernel.Prelude.{
  ◌≡◌, ℕ, zero, suc, ◌+◌, ◌%◌, bit_and, ◌&&◌, ◌||◌, Option, none, some, List, [], ◌∷◌, ltb, ◌==◌,
  if◌then◌else◌, get_or, ◌>>=◌,
}
use myreallyoldkernel.Vfs.{Text, Fs, Vfs, fs_size, register_fs}

abbrev pub bus_of : ℕ → ℕ
bus_of k = if ltb k 2 then 0x1F0 else 0x170

abbrev pub drive_of : ℕ → ℕ
drive_of k = if k % 2 == 0 then 0xA0 else 0xB0

-- What the two cylinder registers say; other values leave the table as it is.
unfoldable pub classify : ℕ → ℕ → Option ℕ
classify cl ch =
    if cl == 0x14 && ch == 0xEB || cl == 0x69 && ch == 0x96
    then some 3
    else if cl == 0 && ch == 0
    then some 1
    else if cl == 0x3C && ch == 0xC3
    then some 2
    else none

-- A write to the table of the drives. The table is declared with three elements; the fourth is the byte
-- behind it, which the code writes and reads as well.
abbrev pub write_drive : List ℕ → ℕ → ℕ → List ℕ
write_drive [] zero kind = kind ∷ []
write_drive [] (suc k) kind = 0 ∷ write_drive [] k kind
write_drive (old ∷ drives) zero kind = kind ∷ drives
write_drive (old ∷ drives) (suc k) kind = old ∷ write_drive drives k kind

abbrev pub mark_drive : List ℕ → ℕ → Option ℕ → List ℕ
mark_drive drives k none = drives
mark_drive drives k (some kind) = write_drive drives k kind

abbrev pub boot_name : Text
boot_name = b'/' ∷ b'B' ∷ b'O' ∷ b'O' ∷ b'T' ∷ []

-- Where the state of the file systems has its disc.
pub record HasDisc (S D : Type 0) : Type 0 where
  pub disc : S → Disc D
  pub with_disc : S → Disc D → S
  pub disc_with : (s : S) (d : Disc D) → disc (with_disc s d) ≡ d

module _ {D : Type 0} (ports : Ports D) where
  -- A drive selected, its registers zeroed and a command sent.
  unfoldable pub command : D → ℕ → ℕ → ℕ → D
  unfolding select
  command d bus drive byte =
      let d1 = ports.outb (select ports d bus drive) (bus + 2) 0 in
      let d2 = ports.outb d1 (bus + 3) 0 in
      let d3 = ports.outb d2 (bus + 4) 0 in
      let d4 = ports.outb d3 (bus + 5) 0 in ports.outb d4 (bus + 7) byte

  -- IDENTIFY at one position: no device, a device that aborts it, or what its registers say.
  unfoldable pub identify : D → ℕ → ℕ → Option (Option ℕ × D)
  unfolding command classify
  identify d bus drive = wait_not_busy ports (command d bus drive 0xEC) bus >>= λ idle.
      let (result, d1) = ports.inb idle (bus + 7) in
      let (error, d2) = ports.inb d1 (bus + 1) in
      let (cl, d3) = ports.inb d2 (bus + 4) in
      let (ch, d4) = ports.inb d3 (bus + 5) in
      if result == 0
      then some (some 0, d1)
      else if bit_and error 0x04 == 4
      then some (some 3, d2)
      else some (classify cl ch, d4)

  -- The two loops over the positions, from `k` on.
  unfoldable pub identify_all : ℕ → ℕ → List ℕ → D → Option (List ℕ × D)
  unfolding identify
  identify_all zero k drives d = some (drives, d)
  identify_all (suc n) k drives d = do
    (kind, d') ← identify d (bus_of k) (drive_of k)
    identify_all n (k + 1) (mark_drive drives k kind) d'

  -- The words of the identification, while the drive has more. They only go to the screen; their
  -- array has 256 elements.
  unfoldable pub drain_words : ℕ → D → ℕ → Option D
  drain_words zero d bus = none
  drain_words (suc fuel) d bus =
      let (status, d') = ports.inb d (bus + 7) in
      let rest = drain_words fuel (ports.inw d' bus).1 bus in
      if bit_and status 0x08 == 8 then rest else some d'

  unfoldable pub identify_packet : ℕ → D → ℕ → ℕ → Option D
  unfolding command drain_words
  identify_packet fuel d bus drive = do
    idle ← wait_not_busy ports (command d bus drive 0xA1) bus
    asked ← wait_request ports idle bus
    let (status, d') = ports.inb asked (bus + 7)
    if bit_and status 0x01 == 1 then some d' else drain_words fuel d' bus

  -- The file system of a disc drive.
  unfoldable pub disc_fs : {S : Type 0} → HasDisc S D → ℕ → ℕ → ℕ → ℕ → Fs S
  unfolding find_file
  disc_fs has walk file bus drive = record {
    bus = bus;
    device = drive;
    mountpoint = boot_name;
    fs_open = λ s filename b dev.
        find_file ports walk file (has.disc s) filename b dev >>= λ answer.
        some (answer.0, has.with_disc s answer.1);
    fs_read = λ s lba count buf pos.
        let d = has.disc s in
        atapi_read ports d.drives d.drive (memory_of d) lba count buf pos >>= λ answer. some (
          answer.0,
          has.with_disc s (record d {
            drive = answer.1.drive;
            heap = record d.heap { pages = record d.heap.pages { memory = answer.1.memory } };
          }),
        );
  }

  -- One disc drive: IDENTIFY PACKET DEVICE, and registerFS with its struct from the heap.
  unfoldable pub register_disc : {S : Type 0} → HasDisc S D → ℕ → ℕ → ℕ → ℕ → Vfs S → Option (Vfs S)
  unfolding identify_packet disc_fs register_fs
  register_disc has fuel walk file i v = do
    d ← identify_packet fuel (has.disc v.state).drive (bus_of i) (drive_of i)
    (_, heap) ← kmalloc (has.disc v.state).heap fs_size
    let disc : Disc D = record (has.disc v.state) { drive = d; heap = heap }
    some (
        register_fs (record v { state = has.with_disc v.state disc })
          (disc_fs has walk file (bus_of i) (drive_of i)))

  -- The last loop, over the positions from `i` on.
  unfoldable pub register_discs :
      {S : Type 0} → HasDisc S D → ℕ → ℕ → ℕ → ℕ → ℕ → Vfs S → Option (Vfs S)
  unfolding register_disc
  register_discs has zero i fuel walk file v = some v
  register_discs has (suc n) i fuel walk file v =
      let skip = register_discs has n (i + 1) fuel walk file v in
      let registered = register_disc has fuel walk file i v >>= λ v'.
      register_discs has n (i + 1) fuel walk file v' in
      if get_or (has.disc v.state).drives i 0 == 3 then registered else skip

  -- atapiInit.
  unfoldable pub atapi_init : {S : Type 0} → HasDisc S D → ℕ → ℕ → ℕ → Vfs S → Option (Vfs S)
  unfolding identify_all register_discs
  atapi_init has fuel walk file v = do
    (drives, d) ← identify_all 4 0 (has.disc v.state).drives (has.disc v.state).drive
    let found : Disc D = record (has.disc v.state) { drives = drives; drive = d }
    register_discs has 4 0 fuel walk file (record v { state = has.with_disc v.state found })

-- atapiWrite and atapiListDir, which do nothing.
abbrev pub atapi_write : ℕ
atapi_write = 1

abbrev pub atapi_list_dir : ℕ
atapi_list_dir = 1
