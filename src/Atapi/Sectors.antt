-- ===== src/Atapi/Sectors.antt =====
-- A drive that serves the sectors of a disc, and the buffer that a read of one leaves.
use mathlib.Core.Path.{subst}
use myreallyoldkernel.Atapi.{
  Ports, Progress, find_drive, select, request_sector, read_size, skip_words, atapi_read,
}
use myreallyoldkernel.Atapi.Data.{bytes_of, length-bytes_of, Streams, drained, atapi_read-drained}
use myreallyoldkernel.Atapi.Directory.{Disc, memory_of, load_sector}
use myreallyoldkernel.Memory.{Memory}
use myreallyoldkernel.Paging.{◌+w◌}
use myreallyoldkernel.Prelude.{
  length-take, ℕ, ◌+◌, ◌-◌, ◌*◌, ◌/◌, ◌^◌, ◌≤◌, ◌<◌, ◌≡◌, refl, ap, sym, ◌∙◌, arith, none, some,
  List, length, get_or, take, zero, suc, [], ◌∷◌, ltb, leb, ◌&&◌, if◌then◌else◌,
}

-- The bytes of a sector, from its start on.
abbrev pub content : (ℕ → List ℕ) → ℕ → Memory
content sector lba a = get_or (bytes_of (sector lba)) a 0

-- A buffer that holds a sector.
abbrev pub Buffered : Memory → ℕ → Memory → Type 0
Buffered m buf bytes = (j : ℕ) → j < 2048 → m (buf + j) ≡ bytes j

bytes_of-take :
    (k : ℕ) (words : List ℕ) (j : ℕ)
    → j < 2 * k
    → get_or (bytes_of (take k words)) j 0 ≡ get_or (bytes_of words) j 0
bytes_of-take zero words j h = absurd (omega arith)
bytes_of-take (suc k) [] j h = refl
bytes_of-take (suc k) (word ∷ words) zero h = refl
bytes_of-take (suc k) (word ∷ words) (suc zero) h = refl
bytes_of-take (suc k) (word ∷ words) (suc (suc j)) h = bytes_of-take k words j (omega arith)

-- One byte behind a read of some words.
part_held :
    (m m' : Memory) (words : List ℕ) (k buf b : ℕ)
    → length (bytes_of (take k words)) ≡ 2 * k
    → m' b ≡ (
        if leb buf b && ltb b (buf + length (bytes_of (take k words)))
        then get_or (bytes_of (take k words)) (b - buf) 0
        else m b)
    → m' b ≡ (if leb buf b && ltb b (buf + 2 * k) then get_or (bytes_of words) (b - buf) 0 else m b)
part_held m m' words k buf b size held = ground (arith, held, size, bytes_of-take k words (b - buf))

module _ {D : Type 0} (ports : Ports D) where
  -- A drive at a position that serves each sector whole: asked for a block while it is ready, it takes the
  -- packet, raises its interrupt, announces 2048 bytes, hands out the words of the sector, and is
  -- ready again.
  pub record Serves (bus drive : ℕ) (Ready : D → Type 0) (sector : ℕ → List ℕ) : Type 0 where
    pub full : (lba : ℕ) → length (sector lba) ≡ 1024
    pub asked : D → ℕ → D
    pub raised : D → ℕ → D
    pub asks :
        (d : D) (lba : ℕ)
        → Ready d
        → request_sector ports (select ports d bus drive) bus lba ≡ some (asked d lba)
    pub raises : (d : D) (lba : ℕ) → Ready d → ports.await (asked d lba) ≡ some (raised d lba)
    pub announces : (d : D) (lba : ℕ) → Ready d → (read_size ports (raised d lba) bus).0 ≡ 2048
    pub streams :
        (d : D) (lba : ℕ)
        → Ready d
        → Streams ports bus (read_size ports (raised d lba) bus).1 (sector lba)
    pub ready :
        (d : D) (lba : ℕ)
        → Ready d
        → Ready (drained ports bus (read_size ports (raised d lba) bus).1 (sector lba))

  Streams-take :
      (bus : ℕ) (d : D) (k : ℕ) (words : List ℕ)
      → Streams ports bus d words
      → Streams ports bus d (take k words)
  Streams-take bus d zero words s = tt
  Streams-take bus d (suc k) [] s = tt
  Streams-take bus d (suc k) (word ∷ words) s =
      (s.0, Streams-take bus (ports.inw d bus).1 k words s.1)

  skip_words-drained :
      (bus : ℕ) (d : D) (k : ℕ) (words : List ℕ)
      → k ≤ length words
      → skip_words ports (length words - k) (drained ports bus d (take k words)) bus
        ≡ drained ports bus d words
  unfolding skip_words
  skip_words-drained bus d zero [] h = refl
  skip_words-drained bus d zero (word ∷ words) h =
      let rest : suc (length words) - 0 ≡ suc (length words - 0) = omega arith in
      rw rest (skip_words-drained bus (ports.inw d bus).1 zero words (omega arith))
  skip_words-drained bus d (suc k) [] h = absurd (omega arith)
  skip_words-drained bus d (suc k) (word ∷ words) h =
      let rest : suc (length words) - suc k ≡ length words - k = omega arith in
      rw rest (skip_words-drained bus (ports.inw d bus).1 k words (omega arith))

  -- A drive that serves the sectors of a disc: a read of an even number of bytes, at most a sector, from a
  -- sector's start announces 2048, puts the sector's bytes into the buffer, changes no other byte of
  -- the memory, and leaves the drive ready.
  pub atapi_read-Serves :
      {bus drive : ℕ} {Ready : D → Type 0} {sector : ℕ → List ℕ}
      → (serves : Serves bus drive Ready sector)
      → (drives : List ℕ) (d : D) (m : Memory) (lba k buf : ℕ)
      → find_drive 0 drives none ≡ some (bus, drive)
      → Ready d
      → lba < 2 ^ 32
      → k ≤ 1024
      → buf + 2 * k ≤ 2 ^ 32
      → (p : Progress D) × (atapi_read ports drives d m lba (2 * k) buf 0 ≡ some (2048, p))
        × Ready p.drive
        × ((b : ℕ)
            → p.memory b
              ≡ (if leb buf b && ltb b (buf + 2 * k) then content sector lba (b - buf) else m b))
  atapi_read-Serves {bus} {drive} {Ready} {sector} serves drives d m lba k buf found is_ready low
        short room =
      let words = sector lba in
      let part = take k words in
      let full = serves.full lba in
      let size = serves.announces d lba is_ready in
      let long : length part ≡ k = omega (arith, length-take k words, full) in
      let count : 2 * length part ≡ 2 * k = omega (arith, long) in
      let at : lba +w 0 / 2048 ≡ lba = omega arith in
      let asks =
        ap (λ (l : ℕ). request_sector ports (select ports d bus drive) bus l) at
        ∙ serves.asks d lba is_ready in
      let announced = read_size ports (serves.raised d lba) bus in
      let all = serves.streams d lba is_ready in
      let (p, runs, held, left) =
        atapi_read-drained ports drives d (serves.asked d lba) (serves.raised d lba) announced.1 m
          lba buf 0 bus drive announced.0 part found asks (serves.raises d lba is_ready) refl refl
          (Streams-take bus announced.1 k words all) (omega (arith, long))
          (omega (arith, long, size)) (omega (arith, size)) (omega (arith, long)) in
      let more : (announced.0 - 2 * length part + 1) / 2 ≡ length words - k =
        omega (arith, full, long, size) in
      let behind : p.drive ≡ drained ports bus announced.1 words =
        left
        ∙ ap (λ (n : ℕ). skip_words ports n (drained ports bus announced.1 part) bus) more
        ∙ skip_words-drained bus announced.1 k words (omega (arith, full)) in
      let size_of : length (bytes_of part) ≡ 2 * k = length-bytes_of part ∙ count in
      (
        p,
        ap (λ (n : ℕ). atapi_read ports drives d m lba n buf 0) (sym count)
            ∙ runs
            ∙ ap (λ (n : ℕ). some (n, p)) size,
        subst Ready (sym behind) (serves.ready d lba is_ready),
        λ b. part_held m p.memory words k buf b size_of (held b),
      )

  -- The state behind a read.
  abbrev pub loaded : Disc D → Progress D → Disc D
  loaded s p = record s {
    drive = p.drive;
    heap = record s.heap { pages = record s.heap.pages { memory = p.memory } };
  }

  -- A drive that serves the sectors of a disc: a read of one leaves its bytes in the buffer and the drive
  -- ready for the next.
  pub load_sector-Buffered :
      {bus drive : ℕ} {Ready : D → Type 0} {sector : ℕ → List ℕ}
      → (serves : Serves bus drive Ready sector) → (s : Disc D) (lba buf : ℕ)
      → find_drive 0 s.drives none ≡ some (bus, drive)
      → Ready s.drive
      → lba < 2 ^ 32
      → buf + 2048 ≤ 2 ^ 32
      → (s' : Disc D) × (load_sector ports s lba buf ≡ some s')
        × Ready s'.drive
        × (s'.drives ≡ s.drives)
        × Buffered (memory_of s') buf (content sector lba)
  unfolding load_sector
  load_sector-Buffered serves s lba buf found is_ready low room =
      let (p, runs, is_ready', held) =
        atapi_read-Serves serves s.drives s.drive (memory_of s) lba 1024 buf found is_ready low
          (omega arith) (omega arith) in
      (
        loaded s p,
        rw (runs, load_sector) refl,
        is_ready',
        refl,
        λ j h. let index : buf + j - buf ≡ j = omega arith in ground (arith, held (buf + j), index),
      )
