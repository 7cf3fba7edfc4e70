-- ===== src/Atapi/Tests.antt =====
-- A drive that is always ready, and a small directory.
use myreallyoldkernel.Atapi.{
  Ports, Progress, find_drive, poll, wait_not_busy, wait_request, select, begin_packet, send_packet,
  request_sector, skip_words, atapi_read,
}
use myreallyoldkernel.Atapi.Data.{Holds, bytes_of, atapi_read-bytes}
use myreallyoldkernel.Atapi.Directory.{search_dir, root_lba}
use myreallyoldkernel.Atapi.Listing.{Entry, offset_of, search_dir-offset_of, root_lba-RootAt}
use myreallyoldkernel.Memory.{Memory}
use myreallyoldkernel.Prelude.{
  ℕ, ◌+◌, ◌-◌, ◌*◌, ◌/◌, ◌%◌, ◌^◌, ◌<◌, ◌≡◌, ◌↔◌, refl, arith, none, some, List, [], ◌∷◌, ◌++◌,
  ◌==◌, if◌then◌else◌, get_or, replicate,
}

-- The words that a drive still hands out. Its status is 8, and it announces 2048 bytes.
abbrev ready_drive : Ports (List ℕ)
ready_drive = record {
  inb = λ words port. (if port == 0x1F4 then 0 else 8, words);
  inw = λ words port. elim words [ [] ↦ (0, []) | word ∷ rest ↦ (word, rest) ];
  outb = λ words port value. words;
  outw = λ words port value. words;
  await = λ words. some words;
}

abbrev words : List ℕ
words = 0x4241 ∷ 0x4443 ∷ []

request_runs :
    request_sector ready_drive (select ready_drive words 0x1F0 0xA0) 0x1F0 0x10 ≡ some words
unfolding request_sector select begin_packet send_packet wait_not_busy wait_request poll
request_runs = refl

found_first : find_drive 0 (3 ∷ 0 ∷ 0 ∷ 0 ∷ []) none ≡ some (0x1F0, 0xA0)
unfolding find_drive
found_first = refl

atapi_read-bytes_example :
    (p : Progress (List ℕ)) × (atapi_read ready_drive
        (3 ∷ 0 ∷ 0 ∷ 0 ∷ [])
        words
        (λ _. 0)
        0x10
        4
        0x9000
        0
      ≡ some (2048, p))
    × Holds ready_drive 0x1F0 (λ _. 0) p.memory 0x9000 (bytes_of words)
    × (p.drive ≡ skip_words ready_drive ((2048 - 4 + 1) / 2) [] 0x1F0)
atapi_read-bytes_example =
    atapi_read-bytes ready_drive (3 ∷ 0 ∷ 0 ∷ 0 ∷ []) words words words words words (λ _. 0) 0x10
      0x9000 0 0x1F0 0xA0 0 8 words found_first request_runs refl refl refl refl (omega arith)
      (omega arith) (refl, (refl, tt)) (omega arith) (omega arith) (omega arith) (omega arith)

-- Two entries of 34 bytes, "A" and "B", and the end.
abbrev directory : Memory
directory = λ a.
    get_or ((34 ∷ replicate 31 0 ++ 1 ∷ b'A' ∷ []) ++ (34 ∷ replicate 31 0 ++ 1 ∷ b'B' ∷ [])) a 0

abbrev entries : List Entry
entries = record { size = 34; name = b'A' ∷ [] } ∷ record { size = 34; name = b'B' ∷ [] } ∷ []

search_dir-offset_of_example :
    search_dir 3 directory 0 0 (b'B' ∷ []) ≡ some (offset_of 0 entries (b'B' ∷ []))
search_dir-offset_of_example =
    search_dir-offset_of 3 directory 0 0 entries (b'B' ∷ [])
      (
        refl,
        (λ e. absurd (omega arith)),
        refl,
        (refl, tt),
        (refl, (λ e. absurd (omega arith)), refl, (refl, tt), refl),
      )
      (omega arith)

-- A descriptor whose root directory is at block 300.
abbrev descriptor : Memory
descriptor = λ a. get_or (replicate 158 0 ++ 44 ∷ 1 ∷ 0 ∷ 0 ∷ 0 ∷ 0 ∷ 1 ∷ 44 ∷ []) a 0

root_lba-RootAt_example :
    (root_lba descriptor 0 ≡ 300 % 256 + 300 / 256 * 2 ^ 24)
    × ((root_lba descriptor 0 ≡ 300) ↔ (300 < 256))
root_lba-RootAt_example =
    root_lba-RootAt descriptor 0 300
      (record { low_first = (refl, refl, refl, refl); high_first = (refl, refl, refl, refl) })
      (omega arith)
