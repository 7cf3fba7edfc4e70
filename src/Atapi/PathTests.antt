-- ===== src/Atapi/PathTests.antt =====
-- Paths, a read and a listing on the sample disc.
use myreallyoldkernel.Atapi.{find_drive}
use myreallyoldkernel.Atapi.BootDisc.{open_file-read}
use myreallyoldkernel.Atapi.Init.{HasDisc, disc_fs}
use myreallyoldkernel.Atapi.Buffer.{Lists}
use myreallyoldkernel.Atapi.Directory.{Disc, memory_of, root_lba, find_file}
use myreallyoldkernel.Atapi.Listing.{Entry, RootAt}
use myreallyoldkernel.Atapi.Path.{Dotted, PathTo, find_file-PathTo}
use myreallyoldkernel.Atapi.ReadCd.{
  Shown, CdListing, Directory, Descriptor, read_cd, read_cd-Serves,
}
use myreallyoldkernel.Atapi.Sectors.{content}
use myreallyoldkernel.Paging.{kmalloc, bump}
use myreallyoldkernel.Prelude.{
  inl, inr, replicate, ℕ, ◌+◌, ◌≡◌, ◌-◌, ltb, leb, ◌&&◌, refl, arith, none, some, List, [], ◌∷◌,
  ◌++◌, if◌then◌else◌,
}
use myreallyoldkernel.Ramfs.Tree.{AreNames, joined}
use myreallyoldkernel.Vfs.{Text, Vfs, strcmp, open_file, read}
use myreallyoldkernel.Atapi.SampleDisc.{
  Drive, boot, file_name, sector, disc_drive, Ready, disc_drive-Serves, at_page, disc,
}

abbrev root_entries : List Entry
root_entries = record { size = 38; name = boot } ∷ []

in_root : Lists 5 (content sector 25) boot 30
unfolding strcmp
in_root = record {
  entries = root_entries;
  laid = (refl, (λ e. absurd (omega arith)), refl, (refl, (refl, (refl, (refl, tt)))), refl);
  fits = (omega arith, omega arith);
  walked = omega arith;
  offset = 0;
  is_at = refl;
  leads = (refl, refl, refl, refl, omega arith);
}

in_boot : Lists 5 (content sector 30) (file_name ++ b';' ∷ b'1' ∷ []) 40
unfolding strcmp
in_boot = record {
  entries = record { size = 38; name = file_name ++ b';' ∷ b'1' ∷ [] } ∷ [];
  laid =
      (refl, (λ e. absurd (omega arith)), refl, (refl, (refl, (refl, (refl, (refl, tt))))), refl);
  fits = (omega arith, omega arith);
  walked = omega arith;
  offset = 0;
  is_at = refl;
  leads = (refl, refl, refl, refl, omega arith);
}

boot_plain : ¬ Dotted boot
boot_plain dotted = elim dotted [
  | inl e ↦ absurd (omega arith)
  | inr (inl e) ↦ absurd (omega arith)
  | inr (inr (inl e)) ↦ absurd (omega arith)
  | inr (inr (inr (inl e))) ↦ absurd (omega arith)
  | inr (inr (inr (inr e))) ↦ e
]

to_file : PathTo 5 sector 25 (boot ∷ file_name ∷ []) 40
to_file = (30, boot_plain, omega arith, in_root, (inr (inl refl), in_boot))

found : find_drive 0 disc.drives none ≡ some (0x1F0, 0xA0)
unfolding find_drive
found = refl

buffer : kmalloc at_page 2048 ≡ some (0x1020, record at_page { next_address = 0x1820 })
unfolding kmalloc bump
buffer = refl

root-RootAt : RootAt (content sector 0x10) 0 25
root-RootAt = record { low_first = (refl, refl, refl, refl); high_first = (refl, refl, refl, refl) }

root_at : root_lba (content sector 0x10) 0 ≡ 25
unfolding root_lba
root_at = refl

are_names : AreNames (boot ∷ file_name ∷ [])
are_names = (
  (
    (λ e. absurd (omega arith)),
    ((λ e. absurd (omega arith)), ((λ e. absurd (omega arith)), ((λ e. absurd (omega arith)), tt))),
  ),
  (
    ((λ e. absurd (omega arith)), ((λ e. absurd (omega arith)), ((λ e. absurd (omega arith)), tt))),
    tt,
  ),
)

find_file-PathTo_example :
    (s' : Disc Drive) × (find_file disc_drive 5 0 disc (joined (boot ∷ file_name ∷ [])) 0x1F0 0xA0
      ≡ some (40, s'))
    × Ready s'.drive
    × (s'.drives ≡ disc.drives)
find_file-PathTo_example =
    find_file-PathTo disc_drive disc_drive-Serves 5 0x1020 40 (omega arith) disc
      (boot ∷ file_name ∷ []) 25 0 0x1F0 0xA0 (record at_page { next_address = 0x1820 }) are_names
      found refl buffer root-RootAt (omega arith) (λ e. absurd (omega arith)) to_file

-- A state that is its disc.
abbrev itself : HasDisc (Disc Drive) Drive
itself = record { disc = λ s. s; with_disc = λ s d. d; disc_with = λ s d. refl }

-- The disc mounted below /BOOT.
abbrev mounted_disc : Vfs (Disc Drive)
mounted_disc = record {
  root_fs = disc_fs disc_drive itself 5 0 0x1F0 0xA0;
  mounts = disc_fs disc_drive itself 5 0 0x1F0 0xA0 ∷ [];
  files = [];
  state = disc;
}

open_file-read_example :
    (v' v'' : Vfs (Disc Drive)) × (open_file mounted_disc [] (joined (boot ∷ file_name ∷ []))
      ≡ some (1, v'))
    × (read v' 1 100 0x4000 ≡ some (2048, v''))
    × ((b : ℕ)
        → memory_of v''.state b ≡ (
            if leb 0x4000 b && ltb b (0x4000 + 100)
            then content sector 40 (b - 0x4000)
            else memory_of v'.state b))
open_file-read_example =
    open_file-read itself disc_drive disc_drive-Serves 5 0 0x1020 40 0x1F0 0xA0 (omega arith)
      mounted_disc file_name [] 25 50 0x4000 (record at_page { next_address = 0x1820 }) refl
      (omega arith) are_names found refl buffer root_at (omega arith) (λ e. absurd (omega arith))
      to_file (omega arith) (omega arith) (omega arith)

abbrev id_text : Text
id_text = b'C' ∷ b'D' ∷ b'0' ∷ b'0' ∷ b'1' ∷ []

abbrev shows : List Shown
shows = record { size = 38; lba = 30; name_size = 4; name = boot } ∷ []

shows-Directory : Directory (content sector 25) 0 shows
shows-Directory = (
  refl,
  (λ e. absurd (omega arith)),
  (refl, refl, refl, refl, omega arith),
  refl,
  refl,
  (refl, (refl, (refl, (refl, tt)))),
  omega arith,
  (refl, omega arith),
)

cd-Descriptor : Descriptor (content sector 16) 1 id_text (replicate 32 b' ') (replicate 32 b' ') 25
cd-Descriptor = record {
  kind_at = refl;
  system_at = (refl, (refl, (refl, (refl, (refl, tt)))));
  system_size = refl;
  writer_at = (
    refl,
    (
      refl,
      (
        refl,
        (
          refl,
          (
            refl,
            (
              refl,
              (
                refl,
                (
                  refl,
                  (
                    refl,
                    (
                      refl,
                      (
                        refl,
                        (
                          refl,
                          (
                            refl,
                            (
                              refl,
                              (
                                refl,
                                (
                                  refl,
                                  (
                                    refl,
                                    (
                                      refl,
                                      (
                                        refl,
                                        (
                                          refl,
                                          (
                                            refl,
                                            (
                                              refl,
                                              (
                                                refl,
                                                (
                                                  refl,
                                                  (
                                                    refl,
                                                    (
                                                      refl,
                                                      (
                                                        refl,
                                                        (refl, (refl, (refl, (refl, (refl, tt))))),
                                                      ),
                                                    ),
                                                  ),
                                                ),
                                              ),
                                            ),
                                          ),
                                        ),
                                      ),
                                    ),
                                  ),
                                ),
                              ),
                            ),
                          ),
                        ),
                      ),
                    ),
                  ),
                ),
              ),
            ),
          ),
        ),
      ),
    ),
  );
  writer_size = refl;
  volume_at = (
    refl,
    (
      refl,
      (
        refl,
        (
          refl,
          (
            refl,
            (
              refl,
              (
                refl,
                (
                  refl,
                  (
                    refl,
                    (
                      refl,
                      (
                        refl,
                        (
                          refl,
                          (
                            refl,
                            (
                              refl,
                              (
                                refl,
                                (
                                  refl,
                                  (
                                    refl,
                                    (
                                      refl,
                                      (
                                        refl,
                                        (
                                          refl,
                                          (
                                            refl,
                                            (
                                              refl,
                                              (
                                                refl,
                                                (
                                                  refl,
                                                  (
                                                    refl,
                                                    (
                                                      refl,
                                                      (
                                                        refl,
                                                        (refl, (refl, (refl, (refl, (refl, tt))))),
                                                      ),
                                                    ),
                                                  ),
                                                ),
                                              ),
                                            ),
                                          ),
                                        ),
                                      ),
                                    ),
                                  ),
                                ),
                              ),
                            ),
                          ),
                        ),
                      ),
                    ),
                  ),
                ),
              ),
            ),
          ),
        ),
      ),
    ),
  );
  volume_size = refl;
  root_at = root-RootAt;
}

abbrev listing : CdListing
listing = record {
  kind = 1;
  system = id_text;
  writer = replicate 32 b' ';
  volume = replicate 32 b' ';
  root = 25;
  entries = shows;
}

read_cd-Serves_example :
    (s' : Disc Drive) × (read_cd disc_drive 5 disc 0x4000 ≡ some (listing, s')) × Ready s'.drive
read_cd-Serves_example =
    read_cd-Serves disc_drive disc_drive-Serves 5 disc 0x4000 1 id_text (replicate 32 b' ')
      (replicate 32 b' ') 25 shows found refl (omega arith) cd-Descriptor (omega arith)
      shows-Directory (omega arith)
