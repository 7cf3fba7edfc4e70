-- ===== src/Atapi/BootDisc.antt =====
-- open and read of a file below /BOOT, where atapiInit has mounted a disc.
use mathlib.Core.Path.{subst}
use mathlib.Core.List.{append-nil}
use myreallyoldkernel.Atapi.{Ports, find_drive}
use myreallyoldkernel.Atapi.Directory.{memory_of, root_lba}
use myreallyoldkernel.Atapi.Init.{HasDisc, boot_name, disc_fs}
use myreallyoldkernel.Atapi.Path.{PathTo, find_file_opens}
use myreallyoldkernel.Atapi.Sectors.{content, Serves, loaded, atapi_read-Serves}
use myreallyoldkernel.Paging.{Heap, kmalloc}
use myreallyoldkernel.Prelude.{
  length-take, ℕ, zero, suc, ◌+◌, ◌-◌, ◌*◌, ◌%◌, ◌^◌, ◌≤◌, ◌<◌, ◌≡◌, ◌≢◌, refl, ap, sym, ◌∙◌, arith,
  false, ◌&&◌, none, some, inl, inr, List, [], ◌∷◌, ◌++◌, ltb, leb, ◌==◌, if◌then◌else◌, length,
  take, Bool-cases,
}
use myreallyoldkernel.Ramfs.Tree.{AreNames, joined}
use myreallyoldkernel.Vfs.{
  Text, Fs, File, Vfs, Search, slash, strcmp, mounted, is_slash, find_mount, try_mount, search_from,
  fs_at, open_on, open_as, open_file, reply, read,
}
use myreallyoldkernel.Vfs.Mounts.{eq_of_strcmp}
use myreallyoldkernel.Vfs.Files.{read_file}
use myreallyoldkernel.Vfs.Table.{get_elem?-append_here}

abbrev boot_part : Text
boot_part = b'B' ∷ b'O' ∷ b'O' ∷ b'T' ∷ []

module _ {S : Type 0} (fs : Fs S) (at_boot : fs.mountpoint ≡ boot_name) where
  passed_over :
      (name : Text) (k : ℕ)
      → 5 < k
      → k ≤ length name
      → (strcmp fs.mountpoint (take k name) == 0) ≡ false
  passed_over name k long inside =
      let differs : strcmp fs.mountpoint (take k name) ≢ 0 = λ z.
        let same = ap length (sym at_boot ∙ eq_of_strcmp fs.mountpoint (take k name) z) in
        omega (arith, same, length-take k name) in
      ground (arith, differs)

  try_mount_pass :
      (prefix : Text) (rest : Search)
      → (strcmp fs.mountpoint prefix == 0) ≡ false
      → try_mount (fs ∷ []) prefix rest ≡ rest
  unfolding try_mount find_mount
  try_mount_pass prefix rest test = rw (try_mount, test) refl

  search_from-pass :
      (name : Text) (n : ℕ)
      → 5 < suc n
      → suc n ≤ length name
      → search_from (fs ∷ []) name (suc n) ≡ search_from (fs ∷ []) name n
  unfolding search_from
  search_from-pass name n long inside = elim (Bool-cases (is_slash name (suc n))) [
    | inl s ↦
        rw (search_from, s)
          (try_mount_pass (take (suc n) name) (search_from (fs ∷ []) name n)
            (passed_over name (suc n) long inside))
    | inr s ↦ rw (search_from, s) refl
  ]

  -- Of the prefixes that end before a slash, the mount point is the longest that is one.
  search_from-boot :
      (rest : Text) (n : ℕ)
      → n + 5 ≤ length (boot_name ++ slash ∷ rest)
      → search_from (fs ∷ []) (boot_name ++ slash ∷ rest) (n + 5) ≡ mounted 1
  unfolding search_from try_mount find_mount is_slash
  search_from-boot rest zero high = rw at_boot refl
  search_from-boot rest (suc n) high =
      let name = boot_name ++ slash ∷ rest in
      let on : suc n + 5 ≡ suc (n + 5) = omega arith in
      rw on (
        search_from-pass name (n + 5) (omega arith) (omega arith)
        ∙ search_from-boot rest n (omega arith))

  -- open of a path below the mount point.
  abbrev opened : Vfs S → ℕ → S → Vfs S
  opened v num s = record v {
    files = v.files ++ record { file_num = num; pos = 0; filesystem = 1 } ∷ [];
    state = s;
  }

  open_file-opened :
      (v : Vfs S) (rest : Text) (num : ℕ) (s : S)
      → v.mounts ≡ fs ∷ []
      → fs.fs_open v.state (boot_name ++ slash ∷ rest) fs.bus fs.device ≡ some (num, s)
      → length v.files + 1 < 2 ^ 32
      → open_file v [] (boot_name ++ slash ∷ rest) ≡ some (length v.files + 1, opened v num s)
  unfolding open_file open_as open_on fs_at
  open_file-opened v rest num s only answer short =
      let name = boot_name ++ slash ∷ rest in
      let fd : (length v.files + 1) % 2 ^ 32 ≡ length v.files + 1 = omega arith in
      let size : length name ≡ length rest + 1 + 5 = omega arith in
      let search : search_from v.mounts name (length name) ≡ mounted 1 =
        rw (only, size) (search_from-boot rest (length rest + 1) (omega arith)) in
      let as_name : open_as v name name ≡ some (length v.files + 1, opened v num s) =
        rw (open_as, search, only, answer, fd) refl in
      subst (λ t. open_as v t name ≡ some (length v.files + 1, opened v num s))
        (sym (append-nil name)) as_name

  read-opened :
      (v : Vfs S) (num : ℕ) (s : S) (count buf : ℕ)
      → v.mounts ≡ fs ∷ []
      → read (opened v num s) (length v.files + 1) count buf
        ≡ reply (opened v num s) (fs.fs_read s num count buf 0)
  unfolding fs_at
  read-opened v num s count buf only =
      let file : File = record { file_num = num; pos = 0; filesystem = 1 } in
      let at : fs_at (opened v num s) 1 ≡ some fs = rw only refl in
      let fd : length v.files + 1 ≡ suc (length v.files) = omega arith in
      rw fd (
        read_file (opened v num s) (length v.files) count buf file fs
          (get_elem?-append_here v.files file) at)

module _ {S D : Type 0} (has : HasDisc S D) (ports : Ports D) where
  module _ {bus drive : ℕ} {Ready : D → Type 0} {sector : ℕ → List ℕ}
      (serves : Serves ports bus drive Ready sector)
      (walk file buf target given_bus given_device : ℕ) (room : buf + 2048 ≤ 2 ^ 32) where
    -- A file below /BOOT of a disc that a drive serves, where the disc is the only file system behind the
    -- root, the list of files is shorter than 2 ^ 32, the drive is in the table, kmalloc returns a
    -- block below the end of memory, the descriptor leads to the root directory, `file` does not happen
    -- to be 1, and the path, with BOOT as its first part and a dot in its last one only, leads to a block
    -- on the disc: open returns the
    -- next descriptor; a read with it of an even number of bytes, at most a sector, puts the first bytes
    -- of that block into the buffer and changes no other byte of the memory. It returns 2048, whatever
    -- the number of bytes.
    pub open_file-read :
        (v : Vfs S) (name : Text) (names : List Text) (root k dest : ℕ) (heap : Heap)
        → v.mounts ≡ disc_fs ports has walk file given_bus given_device ∷ []
        → length v.files + 1 < 2 ^ 32
        → AreNames (boot_part ∷ name ∷ names)
        → find_drive 0 (has.disc v.state).drives none ≡ some (bus, drive)
        → Ready (has.disc v.state).drive
        → kmalloc (has.disc v.state).heap 2048 ≡ some (buf, heap)
        → root_lba (content sector 0x10) 0 ≡ root
        → root < 2 ^ 32
        → file ≢ 1
        → PathTo walk sector root (boot_part ∷ name ∷ names) target
        → target < 2 ^ 32
        → k ≤ 1024
        → dest + 2 * k ≤ 2 ^ 32
        → (v' v'' : Vfs S) × (open_file v [] (joined (boot_part ∷ name ∷ names))
            ≡ some (length v.files + 1, v'))
          × (read v' (length v.files + 1) (2 * k) dest ≡ some (2048, v''))
          × ((b : ℕ)
              → memory_of (has.disc v''.state) b ≡ (
                  if leb dest b && ltb b (dest + 2 * k)
                  then content sector target (b - dest)
                  else memory_of (has.disc v'.state) b))
    unfolding joined disc_fs
    open_file-read v name names root k dest heap only short are found is_ready got is_root low
          no_file to in_range few space =
        let fs = disc_fs ports has walk file given_bus given_device in
        let path = boot_part ∷ name ∷ names in
        let (s', finds, ready', table) =
          find_file_opens ports serves walk buf target room (has.disc v.state) path root file
            given_bus given_device heap are found is_ready got is_root low no_file to in
        let (p, runs, ready'', held) =
          atapi_read-Serves ports serves s'.drives s'.drive (memory_of s') target k dest
            (rw table found) ready' in_range few space in
        let state = has.with_disc v.state s' in
        let v' = opened fs refl v target state in
        let finds_here : fs.fs_open v.state (joined path) fs.bus fs.device ≡ some (target, state) =
          rw finds refl in
        let opens =
          open_file-opened fs refl v (name ++ joined names) target state only finds_here short in
        let after = has.with_disc state (loaded ports s' p) in
        let v'' : Vfs S = record v' { state = after } in
        let answers : fs.fs_read state target (2 * k) dest 0 ≡ some (2048, after) =
          rw (has.disc_with v.state s', runs) refl in
        let gives : read v' (length v.files + 1) (2 * k) dest ≡ reply v' (some (2048, after)) =
          read-opened fs refl v target state (2 * k) dest only ∙ ap (reply v') answers in
        (
          v',
          v'',
          opens,
          gives,
          λ b. rw (has.disc_with state (loaded ports s' p), has.disc_with v.state s') (held b),
        )
