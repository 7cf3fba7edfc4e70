-- ===== src/Atapi/Listing.antt =====
-- A directory sector against the list of entries that it stands for.
use myreallyoldkernel.Bits.Digits.{bit_or-add}
use myreallyoldkernel.Atapi.Directory.{same_name, search_dir, join_bytes, entry_lba, root_lba}
use myreallyoldkernel.Memory.{Memory}
use myreallyoldkernel.Prelude.{
  ℕ, zero, suc, ◌+◌, ◌*◌, ◌/◌, ◌%◌, ◌^◌, ◌<◌, ◌≡◌, ◌≢◌, ◌↔◌, refl, ◌∙◌, arith, Bool, true, false,
  ◌&&◌, Option, none, some, List, [], ◌∷◌, ◌==◌, if◌then◌else◌, length,
}
use myreallyoldkernel.Vfs.{Text, strcmp}

pub record Entry : Type 0 where
  pub size : ℕ
  pub name : Text

abbrev pub NameAt : Memory → ℕ → Text → Type 0
NameAt m a [] = Unit
NameAt m a (c ∷ name) = (m a ≡ c) × NameAt m (a + 1) name

-- The entries stand in memory one behind the other, and a zero ends them.
abbrev pub Laid : Memory → ℕ → List Entry → Type 0
Laid m a [] = m a ≡ 0
Laid m a (e ∷ entries) =
    (m a ≡ e.size)
    × (e.size ≢ 0)
    × (m (a + 32) ≡ length e.name)
    × NameAt m (a + 33) e.name
    × Laid m (a + e.size) entries

-- The offset of the first entry of that name.
abbrev pub offset_of : ℕ → List Entry → Text → Option ℕ
offset_of addr [] name = none
offset_of addr (e ∷ entries) name =
    if strcmp e.name name == 0 then some addr else offset_of (addr + e.size) entries name

-- The length and the characters agree exactly where the names do.
same_name-strcmp :
    (m : Memory) (a : ℕ) (stored name : Text)
    → NameAt m a stored
    → (length stored == length name && same_name m a name) ≡ (strcmp stored name == 0)
unfolding same_name strcmp
same_name-strcmp m a [] [] at = refl
same_name-strcmp m a [] (d ∷ name) at = ground arith
same_name-strcmp m a (c ∷ stored) [] at = ground arith
same_name-strcmp m a (c ∷ stored) (d ∷ name) at =
    ground (arith, at.0, same_name-strcmp m (a + 1) stored name at.1)

some_if :
    (test : Bool) (addr : ℕ) (rest : Option ℕ)
    → (if test then some (some addr) else some rest) ≡ some (if test then some addr else rest)
some_if true addr rest = refl
some_if false addr rest = refl

-- The search of findFile through a directory that holds these entries, with a round for each of them:
-- it answers the offset of the first one of that name, or that there is none.
pub search_dir-offset_of :
    (fuel : ℕ) (m : Memory) (buf addr : ℕ) (entries : List Entry) (name : Text)
    → Laid m (buf + addr) entries
    → length entries < fuel
    → search_dir fuel m buf addr name ≡ some (offset_of addr entries name)
unfolding search_dir
search_dir-offset_of zero m buf addr entries name l h = absurd (omega arith)
search_dir-offset_of (suc fuel) m buf addr [] name l h = rw l refl
search_dir-offset_of (suc fuel) m buf addr (e ∷ entries) name (size, more, count, at, l) h =
    let test = same_name-strcmp m (buf + addr + 33) e.name name at in
    let on : buf + addr + e.size ≡ buf + (addr + e.size) = omega arith in
    let rest =
      search_dir-offset_of fuel m buf (addr + e.size) entries name (rw on at l) (omega arith) in
    let some_size : (e.size == 0) ≡ false = ground (arith, more) in
    rw (search_dir, size, some_size, count, test, rest)
      (some_if (strcmp e.name name == 0) addr (offset_of (addr + e.size) entries name))

-- The record of the root directory in a volume descriptor: its block, lowest byte first and then highest
-- byte first.
pub record RootAt (m : Memory) (buf lba : ℕ) : Type 0 where
  pub low_first :
      (m (buf + 158) ≡ lba % 256)
      × (m (buf + 159) ≡ lba / 2 ^ 8 % 256)
      × (m (buf + 160) ≡ lba / 2 ^ 16 % 256)
      × (m (buf + 161) ≡ lba / 2 ^ 24 % 256)
  pub high_first :
      (m (buf + 162) ≡ lba / 2 ^ 24 % 256)
      × (m (buf + 163) ≡ lba / 2 ^ 16 % 256)
      × (m (buf + 164) ≡ lba / 2 ^ 8 % 256)
      × (m (buf + 165) ≡ lba % 256)

join_bytes_lem :
    (a b c d : ℕ)
    → a < 256
    → b < 256
    → c < 256
    → join_bytes a b c d ≡ a + b * 2 ^ 8 + c * 2 ^ 16 + d * 2 ^ 24
join_bytes_lem a b c d ha hb hc =
    let two = bit_or-add 8 a b (omega arith) in
    let three = bit_or-add 16 (a + b * 2 ^ 8) c (omega arith) in
    let four = bit_or-add 24 (a + b * 2 ^ 8 + c * 2 ^ 16) d (omega arith) in
    rw (two, three, four) refl

-- What findFile takes from a volume descriptor for the block of the root directory, for a block below
-- 2 ^ 16: the block itself where it is below 256, and for any other the second byte ends up as the
-- highest one.
pub root_lba-RootAt :
    (m : Memory) (buf lba : ℕ)
    → RootAt m buf lba
    → lba < 2 ^ 16
    → (root_lba m buf ≡ lba % 256 + lba / 256 * 2 ^ 24) × ((root_lba m buf ≡ lba) ↔ (lba < 256))
unfolding root_lba
root_lba-RootAt m buf lba at small =
    let (b0, _, b2, _) = at.low_first in
    let (b3, _, b1, _) = at.high_first in
    let value : root_lba m buf ≡ lba % 256 + lba / 256 * 2 ^ 24 =
      rw (root_lba, b0, b1, b2, b3)
        (join_bytes_lem (lba % 256) (lba / 2 ^ 16 % 256) (lba / 2 ^ 24 % 256) (lba / 2 ^ 8 % 256)
            (omega arith) (omega arith) (omega arith)
          ∙ omega arith) in
    (value, (λ same. omega (arith, value), λ low. omega (arith, value)))

-- The block of an entry's data in the entry, lowest byte first.
abbrev pub LbaAt : Memory → ℕ → ℕ → Type 0
LbaAt m entry lba =
    (m (entry + 2) ≡ lba % 256)
    × (m (entry + 3) ≡ lba / 2 ^ 8 % 256)
    × (m (entry + 4) ≡ lba / 2 ^ 16 % 256)
    × (m (entry + 5) ≡ lba / 2 ^ 24)
    × (lba < 2 ^ 32)

pub entry_lba-LbaAt : (m : Memory) (entry lba : ℕ) → LbaAt m entry lba → entry_lba m entry ≡ lba
unfolding entry_lba
entry_lba-LbaAt m entry lba (b0, b1, b2, b3, small) =
    rw (entry_lba, b0, b1, b2, b3)
      (join_bytes_lem (lba % 256) (lba / 2 ^ 8 % 256) (lba / 2 ^ 16 % 256) (lba / 2 ^ 24)
          (omega arith) (omega arith) (omega arith)
        ∙ omega arith)
