-- ===== src/Atapi/Data.antt =====
-- The data phase of atapiRead: the words that the drive hands out land in memory.
use native.Mathlib.Decide.{ℕ_discrete, dec_le}
use myreallyoldkernel.Atapi.{
  Ports, Progress, find_drive, select, request_sector, read_size, read_loop, skip_words, atapi_read,
}
use myreallyoldkernel.Atapi.Size.{byte_count, read_size-byte_count}
use myreallyoldkernel.Memory.{Memory, store8}
use myreallyoldkernel.Paging.{◌+w◌}
use myreallyoldkernel.Prelude.{
  ℕ, zero, suc, ◌+◌, ◌-◌, ◌*◌, ◌/◌, ◌%◌, ◌^◌, ◌≤◌, ◌<◌, ◌≡◌, refl, ap, ◌∙◌, arith, bit_and, true,
  false, ◌&&◌, none, some, List, [], ◌∷◌, ltb, leb, ◌==◌, if◌then◌else◌, length, get_or,
}

-- The bytes of the words, the low byte of each first.
abbrev pub bytes_of : List ℕ → List ℕ
bytes_of [] = []
bytes_of (word ∷ words) = bit_and word 0xFF ∷ word / 2 ^ 8 % 256 ∷ bytes_of words

pub length-bytes_of : (words : List ℕ) → length (bytes_of words) ≡ 2 * length words
length-bytes_of [] = refl
length-bytes_of (word ∷ words) = omega (arith, length-bytes_of words)

module _ {D : Type 0} (ports : Ports D) (bus : ℕ) where
  -- The drive hands out these words at its data port, one for each read of it.
  abbrev pub Streams : D → List ℕ → Type 0
  Streams d [] = Unit
  Streams d (word ∷ words) = ((ports.inw d bus).0 ≡ word) × Streams (ports.inw d bus).1 words

  -- The drive behind those reads.
  abbrev pub drained : D → List ℕ → D
  drained d [] = d
  drained d (word ∷ words) = drained (ports.inw d bus).1 words

  -- The block from `at` on holds the bytes, and the rest of the memory is as before.
  abbrev pub Holds : Memory → Memory → ℕ → List ℕ → Type 0
  Holds m m' at bytes =
      (b : ℕ)
      → m' b ≡ (if leb at b && ltb b (at + length bytes) then get_or bytes (b - at) 0 else m b)

  two_more :
      (m m' : Memory) (at x y : ℕ) (bytes : List ℕ)
      → Holds (store8 (store8 m at x) (at + 1) y) m' (at + 2) bytes
      → Holds m m' at (x ∷ y ∷ bytes)
  unfolding store8
  two_more m m' at x y bytes h = λ b. elim (ℕ_discrete b at) [
    | yes e ↦ let zero_index : b - at ≡ 0 = omega arith in ground (arith, h b)
    | no ne ↦ elim (ℕ_discrete b (at + 1)) [
      | yes e ↦ let one_index : b - at ≡ 1 = omega arith in ground (arith, h b)
      | no ne' ↦ elim (dec_le (at + 2) b) [
        | yes behind ↦
            let index : b - at ≡ suc (suc (b - (at + 2))) = omega arith in ground (arith, h b)
        | no before ↦ ground (arith, h b)
      ]
    ]
  ]

  -- A round inside the sector.
  read_loop-straight :
      (fuel : ℕ) (d : D) (m : Memory) (lba count buf size i : ℕ)
      → i + 2 ≤ count
      → count ≤ 2048
      → count ≤ size
      → buf + count ≤ 2 ^ 32
      → let word = (ports.inw d bus).0 in
        read_loop ports (suc fuel) d m bus lba count buf 0 size i
        ≡ read_loop ports fuel
            (ports.inw d bus).1
            (store8 (store8 m (buf + i) (bit_and word 0xFF)) (buf + i + 1) (word / 2 ^ 8 % 256))
            bus
            lba
            count
            buf
            0
            size
            (i + 2)
  unfolding read_loop
  read_loop-straight fuel d m lba count buf size i more short fits room =
      let going : leb count i ≡ false = ground arith in
      let in_size : ltb size i ≡ false = ground arith in
      let not_last : (i + 1 == count) ≡ false = ground arith in
      let inside : ((i + 2 + 0) % 2048 == 0 && ltb (i + 2) count) ≡ false = ground arith in
      let first : buf +w i ≡ buf + i = omega arith in
      let second : buf +w (i + 1) ≡ buf + i + 1 = omega arith in
      rw (read_loop, going, in_size, not_last, inside, first, second) refl

  read_loop-Holds :
      (fuel : ℕ) (d : D) (m : Memory) (lba count buf size i : ℕ) (words : List ℕ)
      → Streams d words
      → i + 2 * length words ≡ count
      → length words < fuel
      → count ≤ 2048
      → count ≤ size
      → size < 2 ^ 32 - 1
      → buf + count ≤ 2 ^ 32
      → (p : Progress D) × (read_loop ports fuel d m bus lba count buf 0 size i ≡ some (size, p))
        × Holds m p.memory (buf + i) (bytes_of words)
        × (p.drive ≡ skip_words ports ((size - count + 1) / 2) (drained d words) bus)
  unfolding read_loop
  read_loop-Holds zero d m lba count buf size i words s e h short fits ends room =
      absurd (omega arith)
  read_loop-Holds (suc fuel) d m lba count buf size i [] s e h short fits ends room =
      let done : leb count i ≡ true = ground arith in
      let stops : (size == 2 ^ 32 - 1) ≡ false = ground (arith, ends) in
      (
        record { drive = skip_words ports ((size - i + 1) / 2) d bus; memory = m },
        rw (done, stops, read_loop) refl,
        λ b. ground arith,
        let all : i ≡ count = omega arith in
            ap (λ (n : ℕ). skip_words ports ((size - n + 1) / 2) d bus) all,
      )
  read_loop-Holds (suc fuel) d m lba count buf size i (word ∷ words) s e h short fits ends room =
      let low = bit_and word 0xFF in
      let high = word / 2 ^ 8 % 256 in
      let both = store8 (store8 m (buf + i) low) (buf + i + 1) high in
      let (p, runs, held, left) =
        read_loop-Holds fuel (ports.inw d bus).1 both lba count buf size (i + 2) words s.1
          (omega arith) (omega arith) short fits ends room in
      let at : buf + (i + 2) ≡ buf + i + 2 = omega arith in
      (
        p,
        read_loop-straight fuel d m lba count buf size i (omega arith) short fits room
            ∙ rw s.0 runs,
        two_more m p.memory (buf + i) low high (bytes_of words) (rw at at held),
        left,
      )

  -- A read of an even number of bytes, at most a sector and at most what the drive announces, behind a
  -- packet for which it hands out these words: atapiRead puts their bytes into the buffer, the low
  -- byte of each word first, and no other byte of the memory changes.
  pub read_loop-bytes :
      (d : D) (m : Memory) (lba buf size : ℕ) (words : List ℕ)
      → Streams d words
      → 2 * length words ≤ 2048
      → 2 * length words ≤ size
      → size < 2 ^ 32 - 1
      → buf + 2 * length words ≤ 2 ^ 32
      → let count = 2 * length words in
        (p : Progress D) × (read_loop ports (count + 1) d m bus lba count buf 0 size 0
          ≡ some (size, p))
        × Holds m p.memory buf (bytes_of words)
        × (p.drive ≡ skip_words ports ((size - count + 1) / 2) (drained d words) bus)
  read_loop-bytes d m lba buf size words s short fits ends room =
      let (p, runs, held, left) =
        read_loop-Holds (2 * length words + 1) d m lba (2 * length words) buf size 0 words s
          (omega arith) (omega arith) short fits ends room in
      let at : buf + 0 ≡ buf = omega arith in (p, runs, rw at at held, left)

module _ {D : Type 0} (ports : Ports D) where
  -- The same over the size that the registers give, however they give it.
  pub atapi_read-drained :
      (drives : List ℕ) (d asked ready d' : D) (m : Memory) (lba buf pos bus drive size : ℕ)
      (words : List ℕ)
      → let count = 2 * length words in
        find_drive 0 drives none ≡ some (bus, drive)
        → request_sector ports (select ports d bus drive) bus (lba +w pos / 2048) ≡ some asked
        → ports.await asked ≡ some ready
        → pos % 2048 ≡ 0
        → read_size ports ready bus ≡ (size, d')
        → Streams ports bus d' words
        → count ≤ 2048
        → count ≤ size
        → size < 2 ^ 32 - 1
        → buf + count ≤ 2 ^ 32
        → (p : Progress D) × (atapi_read ports drives d m lba count buf pos ≡ some (size, p))
          × Holds ports bus m p.memory buf (bytes_of words)
          × (p.drive ≡ skip_words ports ((size - count + 1) / 2) (drained ports bus d' words) bus)
  unfolding atapi_read
  atapi_read-drained drives d asked ready d' m lba buf pos bus drive size words found ask came start
        announced s short fits ends room =
      let (p, runs, held, left) =
        read_loop-bytes ports bus d' m (lba +w pos / 2048) buf size words s short fits ends room in
      (p, rw (atapi_read, found, ask, came, start, announced) runs, held, left)

  -- atapiRead of an even number of bytes, at most a sector, from a position on a sector's boundary, where
  -- a drive is found, it asks for the packet, raises its interrupt, has the bytes `low` and `high` in its
  -- byte count registers and hands out these words. The size is `low + 256 * high` where both bytes are
  -- below 0x80; where the high byte is not, the upper half of the size is all ones, and where the low one
  -- is not, all bits above it are. The size is not below the number of bytes, and below 2 ^ 32 - 1. Then
  -- atapiRead returns the size, puts the words' bytes into the buffer, the low byte of each first, changes
  -- no other byte of the memory, and takes the rest of the size, in words, from the drive.
  pub atapi_read-bytes :
      (drives : List ℕ) (d asked ready d1 d2 : D) (m : Memory) (lba buf pos bus drive low high : ℕ)
      (words : List ℕ)
      → let count = 2 * length words in
        let size = byte_count low high in
        find_drive 0 drives none ≡ some (bus, drive)
        → request_sector ports (select ports d bus drive) bus (lba +w pos / 2048) ≡ some asked
        → ports.await asked ≡ some ready
        → pos % 2048 ≡ 0
        → ports.inb ready (bus + 4) ≡ (low, d1)
        → ports.inb d1 (bus + 5) ≡ (high, d2)
        → low < 256
        → high < 256
        → Streams ports bus d2 words
        → count ≤ 2048
        → count ≤ size
        → size < 2 ^ 32 - 1
        → buf + count ≤ 2 ^ 32
        → (p : Progress D) × (atapi_read ports drives d m lba count buf pos ≡ some (size, p))
          × Holds ports bus m p.memory buf (bytes_of words)
          × (p.drive ≡ skip_words ports ((size - count + 1) / 2) (drained ports bus d2 words) bus)
  atapi_read-bytes drives d asked ready d1 d2 m lba buf pos bus drive low high words found ask came
        start at_low at_high hl hh =
      atapi_read-drained drives d asked ready d2 m lba buf pos bus drive (byte_count low high) words
        found ask came start
        (read_size-byte_count ports ready d1 d2 bus low high at_low at_high hl hh)
