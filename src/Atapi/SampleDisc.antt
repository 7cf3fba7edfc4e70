-- ===== src/Atapi/SampleDisc.antt =====
-- A drive with a disc of three sectors: a descriptor, a directory BOOT and in it a file A.B.
use myreallyoldkernel.Atapi.{
  Ports, poll, wait_not_busy, wait_request, select, begin_packet, send_packet, request_sector,
  read_size,
}
use myreallyoldkernel.Atapi.Data.{Streams, drained}
use myreallyoldkernel.Atapi.Directory.{Disc}
use myreallyoldkernel.Atapi.Sectors.{Serves}
use myreallyoldkernel.Paging.{Heap}
use myreallyoldkernel.Prelude.{
  ℕ, ◌+◌, ◌*◌, ◌/◌, ◌^◌, ◌≡◌, refl, ap, ◌∙◌, bit_and, bit_or, Bool, true, false, some, List, [],
  ◌∷◌, ◌++◌, ◌==◌, if◌then◌else◌, length, replicate,
}
use myreallyoldkernel.Vfs.{Text}
use myreallyoldkernel.Paging.Tests.{heap}

-- What the drive has taken of a packet, and the words that it still hands out.
pub record Drive : Type 0 where
  pub packet : List ℕ
  pub words : List ℕ

-- The root directory is at block 25.
abbrev descriptor : List ℕ
descriptor =
    (1 + b'C' * 256)
    ∷ (b'D' + b'0' * 256)
    ∷ (b'0' + b'1' * 256)
    ∷ 0
    ∷ (replicate 32 (b' ' + b' ' * 256)
        ++ (replicate 43 0 ++ 25 ∷ 0 ∷ 0 ∷ (25 * 256) ∷ replicate 941 0))

abbrev pub boot : Text
boot = b'B' ∷ b'O' ∷ b'O' ∷ b'T' ∷ []

abbrev pub file_name : Text
file_name = b'A' ∷ b'.' ∷ b'B' ∷ []

-- An entry of 38 bytes for BOOT, at block 30.
abbrev root_sector : List ℕ
root_sector =
    38 ∷ 30 ∷ (replicate 14 0 ++ (4 + b'B' * 256) ∷ (b'O' + b'O' * 256) ∷ b'T' ∷ replicate 1005 0)

-- An entry of 38 bytes for A.B;1, at block 40.
abbrev boot_sector : List ℕ
boot_sector =
    38
    ∷ 40
    ∷ (replicate 14 0
        ++ (5 + b'A' * 256) ∷ (b'.' + b'B' * 256) ∷ (b';' + b'1' * 256) ∷ replicate 1005 0)

-- The file's bytes begin with "HI".
abbrev file_sector : List ℕ
file_sector = (b'H' + b'I' * 256) ∷ replicate 1023 0

-- The sector for the low half of an address, as a packet has it.
abbrev sector_of : ℕ → List ℕ
sector_of low =
    if low == 0x1000
    then descriptor
    else if low == 25 * 2 ^ 8
    then root_sector
    else if low == 30 * 2 ^ 8
    then boot_sector
    else if low == 40 * 2 ^ 8
    then file_sector
    else replicate 1024 0

abbrev low_half : ℕ → ℕ
low_half lba = bit_or (bit_and (lba / 2 ^ (8 * 0)) 0xFF * 2 ^ 8) (bit_and (lba / 2 ^ (8 * 1)) 0xFF)

abbrev pub sector : ℕ → List ℕ
sector lba = sector_of (low_half lba)

-- The sixth word of a packet has the drive look up the sector that the third one names.
abbrev take_word : Drive → ℕ → Drive
take_word d word = elim d.packet [
  | f4 ∷ f3 ∷ low ∷ f1 ∷ f0 ∷ [] ↦ record { packet = []; words = sector_of low }
  | taken ↦ record { packet = word ∷ taken; words = d.words }
]

abbrev pub disc_drive : Ports Drive
disc_drive = record {
  inb = λ d port. (if port == 0x1F4 then 0 else 8, d);
  inw = λ d port. elim d.words [
    | [] ↦ (0, d)
    | word ∷ rest ↦ (word, record { packet = d.packet; words = rest })
  ];
  outb = λ d port value. d;
  outw = λ d port value. take_word d value;
  await = λ d. some d;
}

abbrev pub Ready : Drive → Type 0
Ready d = d.packet ≡ []

one_of :
    (t : Bool) (x y : List ℕ)
    → length x ≡ 1024
    → length y ≡ 1024
    → length (if t then x else y) ≡ 1024
one_of true x y h k = h
one_of false x y h k = k

full : (low : ℕ) → length (sector_of low) ≡ 1024
full low = one_of (low == 0x1000) descriptor _ refl (
    one_of (low == 25 * 2 ^ 8) root_sector _ refl (
      one_of (low == 30 * 2 ^ 8) boot_sector _ refl
        (one_of (low == 40 * 2 ^ 8) file_sector (replicate 1024 0) refl refl)))

abbrev holding : List ℕ → Drive
holding words = record { packet = []; words = words }

served :
    (words : List ℕ) (lba : ℕ)
    → request_sector disc_drive (select disc_drive (holding words) 0x1F0 0xA0) 0x1F0 lba
      ≡ some (holding (sector lba))
unfolding request_sector select begin_packet send_packet wait_not_busy wait_request poll
served words lba = refl

asks :
    (d : Drive) (lba : ℕ)
    → Ready d
    → request_sector disc_drive (select disc_drive d 0x1F0 0xA0) 0x1F0 lba
      ≡ some (holding (sector lba))
asks d lba e =
    ap
      (λ p.
        request_sector disc_drive
          (select disc_drive (record { packet = p; words = d.words }) 0x1F0 0xA0) 0x1F0 lba)
      e
    ∙ served d.words lba

streams : (words : List ℕ) → Streams disc_drive 0x1F0 (holding words) words
streams [] = tt
streams (word ∷ words) = (refl, streams words)

drained-Ready : (words : List ℕ) → Ready (drained disc_drive 0x1F0 (holding words) words)
drained-Ready [] = refl
drained-Ready (word ∷ words) = drained-Ready words

pub disc_drive-Serves : Serves disc_drive 0x1F0 0xA0 Ready sector
unfolding read_size
disc_drive-Serves = record {
  full = λ lba. full (low_half lba);
  asked = λ d lba. holding (sector lba);
  raised = λ d lba. holding (sector lba);
  asks = asks;
  raises = λ d lba e. refl;
  announces = λ d lba e. refl;
  streams = λ d lba e. streams (sector lba);
  ready = λ d lba e. drained-Ready (sector lba);
}

abbrev pub at_page : Heap
at_page = record heap { next_address = 0x1020; end_of_page = 0x2000 }

abbrev pub disc : Disc Drive
disc = record { drives = 3 ∷ 0 ∷ 0 ∷ 0 ∷ []; drive = holding []; heap = at_page }
