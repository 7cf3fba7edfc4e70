-- ===== src/Atapi/ReadCd.antt =====
-- readCD of atapi.c: what it shows of a disc's descriptor and of the directory in sector 25.
use myreallyoldkernel.Atapi.{Ports, find_drive}
use myreallyoldkernel.Atapi.Buffer.{Fits, Laid-moved, entry_lba-moved, root_lba-moved}
use myreallyoldkernel.Atapi.Directory.{Disc, memory_of, load_sector, entry_lba, root_lba}
use myreallyoldkernel.Atapi.Listing.{
  LbaAt, entry_lba-LbaAt, RootAt, root_lba-RootAt, Entry, NameAt, Laid,
}
use myreallyoldkernel.Atapi.Sectors.{content, Buffered, Serves, load_sector-Buffered}
use myreallyoldkernel.Memory.{Memory}
use myreallyoldkernel.Prelude.{
  ◌≢◌, ◌*◌, ◌/◌, ◌%◌, false, ℕ, zero, suc, ◌+◌, ◌≤◌, ◌<◌, ◌^◌, ◌≡◌, refl, ap, sym, ◌∙◌, arith,
  Option, none, some, List, [], ◌∷◌, ◌==◌, if◌then◌else◌, length, ◌>>=◌,
}
use myreallyoldkernel.Vfs.{Text}

-- The lines of one entry.
pub record Shown : Type 0 where
  pub size : ℕ
  pub lba : ℕ
  pub name_size : ℕ
  pub name : Text

-- The lines of the descriptor, and the entries.
pub record CdListing : Type 0 where
  pub kind : ℕ
  pub system : Text
  pub writer : Text
  pub volume : Text
  pub root : ℕ
  pub entries : List Shown

-- The bytes that a for loop prints.
unfoldable pub bytes_at : Memory → ℕ → ℕ → Text
bytes_at m a zero = []
bytes_at m a (suc n) = m a ∷ bytes_at m (a + 1) n

-- The while loop over the entries; `none` is more of them than the fuel.
unfoldable pub show_entries : ℕ → Memory → ℕ → ℕ → Option (List Shown)
unfolding bytes_at entry_lba
show_entries zero m buf addr = none
show_entries (suc fuel) m buf addr =
    let at = buf + addr in
    let size = m at in
    let rest = show_entries fuel m buf (addr + size) in
    let shown : Shown = record {
      size = size;
      lba = entry_lba m at;
      name_size = m (at + 32);
      name = bytes_at m (at + 33) (m (at + 32));
    } in
    if size == 0 then some [] else rest >>= λ more. some (shown ∷ more)

module _ {D : Type 0} (ports : Ports D) where
  -- readCD, with its array at `buf`.
  unfoldable pub read_cd : ℕ → Disc D → ℕ → Option (CdListing × Disc D)
  unfolding show_entries root_lba
  read_cd walk s buf = do
    s1 ← load_sector ports s 0x10 buf
    s2 ← load_sector ports s1 25 buf
    entries ← show_entries walk (memory_of s2) buf 0
    let m = memory_of s1
    some (
      record {
        kind = m buf;
        system = bytes_at m (buf + 1) 5;
        writer = bytes_at m (buf + 8) 32;
        volume = bytes_at m (buf + 40) 32;
        root = root_lba m buf;
        entries = entries;
      },
      s2,
    )

-- What a directory holds, for a reader of its bytes.
abbrev pub shown_of : Memory → ℕ → List Entry → List Shown
shown_of bytes a [] = []
shown_of bytes a (e ∷ entries) =
    record { size = e.size; lba = entry_lba bytes a; name_size = length e.name; name = e.name }
    ∷ shown_of bytes (a + e.size) entries

bytes_at-NameAt :
    (m : Memory) (a : ℕ) (name : Text) → NameAt m a name → bytes_at m a (length name) ≡ name
unfolding bytes_at
bytes_at-NameAt m a [] at = refl
bytes_at-NameAt m a (c ∷ name) at = rw (at.0, bytes_at-NameAt m (a + 1) name at.1) refl

show_entries-Laid :
    (fuel : ℕ) (m : Memory) (buf addr : ℕ) (entries : List Entry)
    → Laid m (buf + addr) entries
    → length entries < fuel
    → show_entries fuel m buf addr ≡ some (shown_of m (buf + addr) entries)
unfolding show_entries
show_entries-Laid zero m buf addr entries l h = absurd (omega arith)
show_entries-Laid (suc fuel) m buf addr [] l h = rw l refl
show_entries-Laid (suc fuel) m buf addr (e ∷ entries) (size, more, count, at, l) h =
    let on : buf + addr + e.size ≡ buf + (addr + e.size) = omega arith in
    let rest = show_entries-Laid fuel m buf (addr + e.size) entries (rw on at l) (omega arith) in
    let some_size : (e.size == 0) ≡ false = ground (arith, more) in
    let name = bytes_at-NameAt m (buf + addr + 33) e.name at in
    rw (show_entries, size, some_size, count, name, rest, on) refl

module _ (m bytes : Memory) (buf : ℕ) (here : Buffered m buf bytes) where
  bytes_at-moved : (a n : ℕ) → a + n ≤ 2048 → bytes_at m (buf + a) n ≡ bytes_at bytes a n
  unfolding bytes_at
  bytes_at-moved a zero h = refl
  bytes_at-moved a (suc n) h =
      let on : buf + a + 1 ≡ buf + (a + 1) = omega arith in
      rw (here a (omega arith), on, bytes_at-moved (a + 1) n (omega arith)) refl

  shown_of-moved :
      (a : ℕ) (entries : List Entry)
      → Fits a entries
      → shown_of m (buf + a) entries ≡ shown_of bytes a entries
  shown_of-moved a [] fits = refl
  shown_of-moved a (e ∷ entries) (fits, rest) =
      let on : buf + a + e.size ≡ buf + (a + e.size) = omega arith in
      let lba = entry_lba-moved m bytes buf here a (omega arith) in
      rw (lba, on, shown_of-moved (a + e.size) entries rest) refl

-- A directory in a sector, entry by entry: the size, the block, lowest byte first, and the name with its
-- length; a size of 0 ends it.
abbrev pub Directory : Memory → ℕ → List Shown → Type 0
Directory bytes a [] = (bytes a ≡ 0) × (a < 2048)
Directory bytes a (x ∷ shows) =
    (bytes a ≡ x.size)
    × (x.size ≢ 0)
    × LbaAt bytes a x.lba
    × (bytes (a + 32) ≡ x.name_size)
    × (length x.name ≡ x.name_size)
    × NameAt bytes (a + 33) x.name
    × (a + 33 + length x.name ≤ 2048)
    × Directory bytes (a + x.size) shows

-- A volume descriptor: its kind, three texts of fixed lengths and the block of the root directory.
pub record Descriptor (bytes : Memory) (kind : ℕ) (system writer volume : Text) (root : ℕ)
    : Type 0 where
  pub kind_at : bytes 0 ≡ kind
  pub system_at : NameAt bytes 1 system
  pub system_size : length system ≡ 5
  pub writer_at : NameAt bytes 8 writer
  pub writer_size : length writer ≡ 32
  pub volume_at : NameAt bytes 40 volume
  pub volume_size : length volume ≡ 32
  pub root_at : RootAt bytes 0 root

abbrev entries : List Shown → List Entry
entries [] = []
entries (x ∷ shows) = record { size = x.size; name = x.name } ∷ entries shows

-- The directory as readCD meets it.
Directory-Laid :
    (bytes : Memory) (a : ℕ) (shows : List Shown)
    → Directory bytes a shows
    → Laid bytes a (entries shows)
      × Fits a (entries shows)
      × (length (entries shows) ≡ length shows)
      × (shown_of bytes a (entries shows) ≡ shows)
Directory-Laid bytes a [] (end, inside) = (end, inside, refl, refl)
Directory-Laid bytes a (x ∷ shows) (size, more, lba, count, long, name, inside, rest) =
    let (laid, fits, as_many, same) = Directory-Laid bytes (a + x.size) shows rest in
    (
      (size, more, count ∙ sym long, name, laid),
      (inside, fits),
      omega (arith, as_many),
      rw (entry_lba-LbaAt bytes a x.lba lba, long, same) refl,
    )

bytes_at-text :
    (bytes : Memory) (a n : ℕ) (text : Text)
    → NameAt bytes a text
    → length text ≡ n
    → bytes_at bytes a n ≡ text
bytes_at-text bytes a n text at size =
    ap (λ (k : ℕ). bytes_at bytes a k) (sym size) ∙ bytes_at-NameAt bytes a text at

-- readCD on a drive that serves the sectors of a disc, where the table of drives has the drive, the array
-- is below the end of memory, sector 16 holds a volume descriptor with a root directory at a block
-- below 2 ^ 16, and sector 25 a directory: it shows the descriptor's kind and its three texts, and of
-- each entry, in order, the size, the block and the name with its length. For the root directory it
-- shows root % 256 + root / 256 * 2 ^ 24, which is its block only where that is below 256.
pub read_cd-Serves :
    {D : Type 0} (ports : Ports D) {bus drive : ℕ} {Ready : D → Type 0} {sector : ℕ → List ℕ}
    → (serves : Serves ports bus drive Ready sector)
    → (walk : ℕ) (s : Disc D) (buf kind : ℕ) (system writer volume : Text) (root : ℕ)
      (shows : List Shown)
    → find_drive 0 s.drives none ≡ some (bus, drive)
    → Ready s.drive
    → buf + 2048 ≤ 2 ^ 32
    → Descriptor (content sector 16) kind system writer volume root
    → root < 2 ^ 16
    → Directory (content sector 25) 0 shows
    → length shows < walk
    → let listing : CdListing = record {
      kind = kind;
      system = system;
      writer = writer;
      volume = volume;
      root = root % 256 + root / 256 * 2 ^ 24;
      entries = shows;
    } in
      (s' : Disc D) × (read_cd ports walk s buf ≡ some (listing, s')) × Ready s'.drive
unfolding read_cd
read_cd-Serves ports {bus} {drive} {Ready} {sector} serves walk s buf kind system writer volume root
      shows found is_ready room described small listed walked =
    let (s1, first, ready1, same, here) =
      load_sector-Buffered ports serves s 0x10 buf found is_ready (omega arith) room in
    let found_again : find_drive 0 s1.drives none ≡ some (bus, drive) = rw same found in
    let (s2, second, ready2, _, now) =
      load_sector-Buffered ports serves s1 25 buf found_again ready1 (omega arith) room in
    let descriptor = content sector 16 in
    let directory = content sector 25 in
    let (laid, fits, as_many, same_shows) = Directory-Laid directory 0 shows listed in
    let laid_here = Laid-moved (memory_of s2) directory buf now 0 (entries shows) fits laid in
    let shown =
      show_entries-Laid walk (memory_of s2) buf 0 (entries shows) laid_here (omega (arith, as_many))
      ∙ ap some
          (shown_of-moved (memory_of s2) directory buf now 0 (entries shows) fits ∙ same_shows) in
    let start : buf + 0 ≡ buf = omega arith in
    let is_kind : memory_of s1 buf ≡ kind =
      ap (memory_of s1) (sym start) ∙ here 0 (omega arith) ∙ described.kind_at in
    let text =
      λ (a n : ℕ) (t : Text) (inside : a + n ≤ 2048) (at : NameAt descriptor a t)
          (size : length t ≡ n).
        bytes_at-moved (memory_of s1) descriptor buf here a n inside
        ∙ bytes_at-text descriptor a n t at size in
    let is_system = text 1 5 system (omega arith) described.system_at described.system_size in
    let is_writer = text 8 32 writer (omega arith) described.writer_at described.writer_size in
    let is_volume = text 40 32 volume (omega arith) described.volume_at described.volume_size in
    let is_root =
      root_lba-moved (memory_of s1) descriptor buf here
      ∙ (root_lba-RootAt descriptor 0 root described.root_at small).0 in
    (
      s2,
      rw (read_cd, first, second, shown, is_kind, is_system, is_writer, is_volume, is_root) refl,
      ready2,
    )
