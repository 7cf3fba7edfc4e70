-- ===== src/Atapi.antt =====
-- The ATAPI driver of atapi.c. The drive and its ports are a parameter: `Ports` is what inb, inw, outb
-- and outw do to a drive, and how it comes to raise its interrupt, on which driveIRQ is set.
pub mod Data
pub mod Directory
pub mod Listing
pub mod Sectors
pub mod Size
pub mod Buffer
pub mod Path
pub mod Init
pub mod BootDisc
pub mod ReadCd
pub mod Tests
pub mod SampleDisc
pub mod PathTests
use myreallyoldkernel.Memory.{Memory, store8}
use myreallyoldkernel.Paging.{Heap, ◌+w◌}
use myreallyoldkernel.Prelude.{
  ℕ, zero, suc, ◌+◌, ◌-◌, ◌*◌, ◌/◌, ◌%◌, ◌^◌, bit_and, bit_or, Bool, ◌&&◌, Option, none, some, List,
  [], ◌∷◌, ltb, leb, ◌==◌, if◌then◌else◌, ◌>>=◌,
}

-- `await` is the loop on driveIRQ: the drive once its interrupt has come, or none if it never does.
pub record Ports (D : Type 0) : Type 0 where
  pub inb : D → ℕ → ℕ × D
  pub inw : D → ℕ → ℕ × D
  pub outb : D → ℕ → ℕ → D
  pub outw : D → ℕ → ℕ → D
  pub await : D → Option D

-- The drive and the memory after a read.
pub record Progress (D : Type 0) : Type 0 where
  pub drive : D
  pub memory : Memory

-- A bound on the polls of a status register.
abbrev pub poll_fuel : ℕ
poll_fuel = 2 ^ 20

-- The bus and the drive of the last of the four positions that holds an ATAPI drive. `drives` has
-- three elements and the loop reads a fourth. Without such a drive the code goes on with
-- variables that are not set: `none`.
unfoldable pub find_drive : ℕ → List ℕ → Option (ℕ × ℕ) → Option (ℕ × ℕ)
find_drive i [] selected = selected
find_drive i (kind ∷ drives) selected =
    let bus = if ltb i 2 then 0x1F0 else 0x170 in
    let drive = if i % 2 == 0 then 0xA0 else 0xB0 in
    find_drive (i + 1) drives (if kind == 3 then some (bus, drive) else selected)

-- `(uint32) inb (port)`: inb returns an int8, whose sign is extended.
abbrev pub sign_extended : ℕ → ℕ
sign_extended byte = if ltb byte 0x80 then byte else byte + (2 ^ 32 - 2 ^ 8)

module _ {D : Type 0} (ports : Ports D) where
  -- `while ((inb (port) & mask) != value);`
  unfoldable pub poll : ℕ → D → ℕ → ℕ → ℕ → Option D
  poll zero d port mask value = none
  poll (suc fuel) d port mask value =
      let (status, d') = ports.inb d port in
      let rest = poll fuel d' port mask value in
      if bit_and status mask == value then some d' else rest

  unfoldable pub wait_not_busy : D → ℕ → Option D
  unfolding poll
  wait_not_busy d bus = poll poll_fuel d (bus + 7) 0x80 0

  unfoldable pub wait_request : D → ℕ → Option D
  unfolding poll
  wait_request d bus = poll poll_fuel d (bus + 7) 0x08 8

  -- Selects a drive and reads the status four times.
  unfoldable pub select : D → ℕ → ℕ → D
  select d bus drive =
      let d0 = ports.outb d (bus + 6) drive in
      let d1 = (ports.inb d0 (bus + 7)).1 in
      let d2 = (ports.inb d1 (bus + 7)).1 in
      let d3 = (ports.inb d2 (bus + 7)).1 in (ports.inb d3 (bus + 7)).1

  -- The PACKET command, up to the drive's request for the packet.
  unfoldable pub begin_packet : D → ℕ → Option D
  unfolding wait_not_busy wait_request
  begin_packet d bus =
      let d1 = ports.outb d (bus + 1) 0 in
      let d2 = ports.outb d1 (bus + 4) (bit_and 2048 0xFF) in
      let d3 = ports.outb d2 (bus + 5) (2048 / 2 ^ 8) in
      do idle ← wait_not_busy (ports.outb d3 (bus + 7) 0xA0) bus; wait_request idle bus

  -- The six words of a packet: a command, an address, highest byte first, and a length of blocks.
  unfoldable pub send_packet : D → ℕ → ℕ → ℕ → ℕ → D
  send_packet d bus command lba blocks =
      let byte = λ (i : ℕ). bit_and (lba / 2 ^ (8 * i)) 0xFF in
      let d1 = ports.outw d bus command in
      let d2 = ports.outw d1 bus (bit_or (byte 2 * 2 ^ 8) (byte 3)) in
      let d3 = ports.outw d2 bus (bit_or (byte 0 * 2 ^ 8) (byte 1)) in
      let d4 = ports.outw d3 bus 0 in
      let d5 = ports.outw d4 bus (blocks * 2 ^ 8) in ports.outw d5 bus 0

  -- atapiSeek
  unfoldable pub atapi_seek : D → ℕ → ℕ → ℕ → Option (ℕ × D)
  atapi_seek d lba bus drive = do
    ready ← begin_packet (select d bus drive) bus
    idle ← wait_not_busy (send_packet ready bus 0x2B lba 0) bus
    done ← ports.await idle
    some (0, done)

  -- One sector asked for, up to the drive's request to hand it out.
  unfoldable pub request_sector : D → ℕ → ℕ → Option D
  request_sector d bus lba = do
    ready ← begin_packet d bus
    idle ← wait_not_busy (send_packet ready bus 0xA8 lba 1) bus
    wait_request idle bus

  -- The number of bytes that the drive hands out, as the code puts it together.
  unfoldable pub read_size : D → ℕ → ℕ × D
  read_size d bus =
      let (low, d1) = ports.inb d (bus + 4) in
      let (high, d2) = ports.inb d1 (bus + 5) in
      (bit_or (sign_extended low) (sign_extended high * 2 ^ 8 % 2 ^ 32), d2)

  -- `while (i < size) { inb (bus); i++; }`, for the bytes left
  unfoldable pub skip_bytes : ℕ → D → ℕ → D
  skip_bytes zero d bus = d
  skip_bytes (suc n) d bus = skip_bytes n (ports.inb d bus).1 bus

  unfoldable pub skip_words : ℕ → D → ℕ → D
  skip_words zero d bus = d
  skip_words (suc n) d bus = skip_words n (ports.inw d bus).1 bus

  -- The while loop of atapiRead from byte `i` on. `phase` is `pos % 2048`, and 2048 - i % 2048 once
  -- `pos` is -i: only the remainder of i + phase is tested. The answer is the returned number. With a
  -- size of 2 ^ 32 - 1 the last loop over the words does not end: its count goes from 2 ^ 32 - 2 to 0.
  unfoldable pub read_loop : ℕ → D → Memory → ℕ → ℕ → ℕ → ℕ → ℕ → ℕ → ℕ → Option (ℕ × Progress D)
  unfolding store8 skip_bytes skip_words
  read_loop zero d m bus lba count buf phase size i = none
  read_loop (suc fuel) d m bus lba count buf phase size i =
      let (word, d') = ports.inw d bus in
      let first = store8 m (buf +w i) (bit_and word 0xFF) in
      let both = store8 first (buf +w (i + 1)) (word / 2 ^ 8 % 256) in
      let straight = read_loop fuel d' both bus lba count buf phase size (i + 2) in
      let crossing = request_sector d' bus (lba +w 1) >>= λ d2.
      let (more, d3) = read_size d2 bus in
      read_loop fuel d3 both bus (lba +w 1) count buf (2048 - (i + 2) % 2048)
        ((size + more) % 2 ^ 32) (i + 2) in
      if leb count i
      then (if size == 2 ^ 32 - 1
          then none
          else some (size, record { drive = skip_words ((size - i + 1) / 2) d bus; memory = m }))
      else if ltb size i
      then some (size, record { drive = d; memory = m })
      else if i + 1 == count
      then some (count, record { drive = skip_bytes (size - i) d' bus; memory = first })
      else if (i + 2 + phase) % 2048 == 0 && ltb (i + 2) count
      then crossing
      else straight

  -- atapiRead, for a position that is not negative.
  unfoldable pub atapi_read : List ℕ → D → Memory → ℕ → ℕ → ℕ → ℕ → Option (ℕ × Progress D)
  atapi_read drives d m lba count buf pos = do
    (bus, drive) ← find_drive 0 drives none
    let sector = lba +w pos / 2048
    asked ← request_sector (select d bus drive) bus sector
    ready ← ports.await asked
    let (size, d') = read_size ready bus
    read_loop (count + 1) d' m bus sector count buf (pos % 2048) size 0
