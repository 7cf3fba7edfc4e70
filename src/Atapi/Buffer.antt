-- ===== src/Atapi/Buffer.antt =====
-- A directory of a disc in the buffer that its sector was read into.
use myreallyoldkernel.Atapi.Directory.{search_dir, entry_lba, root_lba}
use myreallyoldkernel.Atapi.Listing.{
  Entry, NameAt, Laid, LbaAt, entry_lba-LbaAt, offset_of, search_dir-offset_of,
}
use myreallyoldkernel.Atapi.Sectors.{Buffered}
use myreallyoldkernel.Memory.{Memory}
use myreallyoldkernel.Prelude.{
  ℕ, ◌+◌, ◌≤◌, ◌<◌, ◌≡◌, refl, ap, ◌∙◌, arith, some, List, [], ◌∷◌, length,
}
use myreallyoldkernel.Vfs.{Text}

-- The entries of a directory stand in one sector.
abbrev pub Fits : ℕ → List Entry → Type 0
Fits a [] = a < 2048
Fits a (e ∷ entries) = (a + 33 + length e.name ≤ 2048) × Fits (a + e.size) entries

-- The first entry of that name in a directory has `child` as the block of its data.
pub record Lists (walk : ℕ) (bytes : Memory) (name : Text) (child : ℕ) : Type 0 where
  pub entries : List Entry
  pub laid : Laid bytes 0 entries
  pub fits : Fits 0 entries
  pub walked : length entries < walk
  pub offset : ℕ
  pub is_at : offset_of 0 entries name ≡ some offset
  pub leads : LbaAt bytes offset child

module _ (m bytes : Memory) (buf : ℕ) (here : Buffered m buf bytes) where
  NameAt-moved :
      (a : ℕ) (name : Text) → a + length name ≤ 2048 → NameAt bytes a name → NameAt m (buf + a) name
  NameAt-moved a [] h at = tt
  NameAt-moved a (c ∷ name) h at =
      let on : buf + a + 1 ≡ buf + (a + 1) = omega arith in
      (here a (omega arith) ∙ at.0, rw on (NameAt-moved (a + 1) name (omega arith) at.1))

  pub Laid-moved :
      (a : ℕ) (entries : List Entry)
      → Fits a entries
      → Laid bytes a entries
      → Laid m (buf + a) entries
  Laid-moved a [] fits l = here a fits ∙ l
  Laid-moved a (e ∷ entries) (fits, rest) (size, more, count, at, l) =
      let on : buf + a + e.size ≡ buf + (a + e.size) = omega arith in
      let count_at : buf + a + 32 ≡ buf + (a + 32) = omega arith in
      let name_at : buf + a + 33 ≡ buf + (a + 33) = omega arith in
      (
        here a (omega arith) ∙ size,
        more,
        rw count_at (here (a + 32) (omega arith) ∙ count),
        rw name_at (NameAt-moved (a + 33) e.name fits at),
        rw on (Laid-moved (a + e.size) entries rest l),
      )

  pub entry_lba-moved : (a : ℕ) → a + 6 ≤ 2048 → entry_lba m (buf + a) ≡ entry_lba bytes a
  unfolding entry_lba
  entry_lba-moved a h =
      let at : (i : ℕ) → i < 6 → m (buf + a + i) ≡ bytes (a + i) = λ i low.
        let on : buf + a + i ≡ buf + (a + i) = omega arith in rw on (here (a + i) (omega arith)) in
      rw (entry_lba, at 2 (omega arith), at 3 (omega arith), at 4 (omega arith), at 5 (omega arith))
        refl

  pub root_lba-moved : root_lba m buf ≡ root_lba bytes 0
  unfolding root_lba
  root_lba-moved =
      rw
        (
          root_lba,
          here 158 (omega arith),
          here 160 (omega arith),
          here 162 (omega arith),
          here 164 (omega arith),
        )
        refl

  offset_of-Fits :
      (a : ℕ) (entries : List Entry) (name : Text) (offset : ℕ)
      → Fits a entries
      → offset_of a entries name ≡ some offset
      → offset + 33 ≤ 2048
  offset_of-Fits a [] name offset fits e = absurd (ground (arith, e))
  offset_of-Fits a (entry ∷ entries) name offset (fits, rest) e =
      ground (arith, e, offset_of-Fits (a + entry.size) entries name offset rest)

  -- The search of the buffer.
  pub search_dir-Lists :
      (walk : ℕ) (name : Text) (child : ℕ)
      → Lists walk bytes name child
      → (offset : ℕ) × (search_dir walk m buf 0 name ≡ some (some offset))
        × (entry_lba m (buf + offset) ≡ child)
  search_dir-Lists walk name child lists =
      let laid = Laid-moved 0 lists.entries lists.fits lists.laid in
      let inside = offset_of-Fits 0 lists.entries name lists.offset lists.fits lists.is_at in
      (
        lists.offset,
        search_dir-offset_of walk m buf 0 lists.entries name laid lists.walked
            ∙ ap some lists.is_at,
        entry_lba-moved lists.offset (omega arith)
            ∙ entry_lba-LbaAt bytes lists.offset child lists.leads,
      )
