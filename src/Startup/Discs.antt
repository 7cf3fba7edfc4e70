-- ===== src/Startup/Discs.antt =====
-- What atapiInit mounts.
use myreallyoldkernel.Atapi.{Ports}
use myreallyoldkernel.Atapi.Init.{HasDisc, mark_drive, identify, bus_of, drive_of, disc_fs}
use myreallyoldkernel.Prelude.{
  ℕ, zero, suc, ◌+◌, ◌≡◌, Option, none, some, List, [], ◌∷◌, ◌==◌, if◌then◌else◌, get_or,
}
use myreallyoldkernel.Vfs.{Text, Vfs, Fs}

-- The buses and the drives of the four positions.
abbrev pub positions : List (ℕ × ℕ)
positions = (0x1F0, 0xA0) ∷ (0x1F0, 0xB0) ∷ (0x170, 0xA0) ∷ (0x170, 0xB0) ∷ []

-- "/BOOT"
abbrev pub boot_path : Text
boot_path = b'/' ∷ b'B' ∷ b'O' ∷ b'O' ∷ b'T' ∷ []

abbrev pub AllAt : {S : Type 0} → Text → List (Fs S) → Type 0
AllAt path [] = Unit
AllAt path (fs ∷ mounts) = (fs.mountpoint ≡ path) × AllAt path mounts

module _ {S D : Type 0} (ports : Ports D) (has : HasDisc S D) (fuel walk file : ℕ) where
  -- The file systems of the positions from `i` on that hold a disc drive.
  abbrev pub disc_mounts : ℕ → ℕ → List ℕ → List (Fs S)
  disc_mounts zero i drives = []
  disc_mounts (suc n) i drives =
      let rest = disc_mounts n (i + 1) drives in
      if get_or drives i 0 == 3
      then disc_fs ports has walk file (bus_of i) (drive_of i) ∷ rest
      else rest

  -- The drives of a list of positions answer IDENTIFY, one behind the other, with these kinds; none is an
  -- answer that atapiInit does not know.
  abbrev pub Identified : D → List (ℕ × ℕ) → List (Option ℕ) → D → Type 0
  Identified d [] [] d' = d ≡ d'
  Identified d [] (k ∷ kinds) d' = ⊥
  Identified d (at ∷ places) [] d' = ⊥
  Identified d (at ∷ places) (k ∷ kinds) d' =
      (next : D) × (identify ports d at.0 at.1 ≡ some (k, next)) × Identified next places kinds d'

  -- A file system for each position whose drive is an ATAPI drive.
  abbrev pub mounted_at : List (ℕ × ℕ) → List (Option ℕ) → List (Fs S)
  mounted_at [] kinds = []
  mounted_at (at ∷ places) [] = []
  mounted_at (at ∷ places) (none ∷ kinds) = mounted_at places kinds
  mounted_at (at ∷ places) (some kind ∷ kinds) =
      let rest = mounted_at places kinds in
      if kind == 3 then disc_fs ports has walk file at.0 at.1 ∷ rest else rest

  abbrev marked : List (Option ℕ) → ℕ → List ℕ → List ℕ
  marked [] k drives = drives
  marked (kind ∷ kinds) k drives = marked kinds (k + 1) (mark_drive drives k kind)
