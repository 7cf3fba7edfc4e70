-- ===== src/Vfs/Files.antt =====
-- read and seek by descriptor.
use mathlib.Core.Path.{subst}
use myreallyoldkernel.Vfs.{
  Text, Fs, File, Vfs, register_fs, fs_at, open_file, reply, read_at, read, seek,
}
use myreallyoldkernel.Vfs.Table.{
  AllOn-mono, AllOn-set, AllOn-get, get_elem?-append_here, get_elem?-inside, length-of_get,
  something_open,
}
use myreallyoldkernel.Vfs.Open.{IsValid, Opened, fs_at-inside, fs_at-same, open_file-Opened}
use myreallyoldkernel.Prelude.{
  ℕ, zero, suc, ◌+◌, ◌-◌, ◌^◌, ◌<◌, ◌≡◌, ◌≢◌, inl, inr, ◌∙◌, refl, sym, ap, arith, some, [], ◌∷◌,
  ◌++◌, get_elem?, set, length, Option-cases, length-append, get_elem?-set_self, get_elem?-set_ne,
}

module _ {S : Type 0} where
  read-read_at :
      (v : Vfs S) (i count buf : ℕ) {file : File}
      → get_elem? v.files i ≡ some file
      → read v (suc i) count buf ≡ read_at v i count buf
  unfolding read
  read-read_at v i count buf e =
      let back : suc i - 1 ≡ i = omega arith in rw (something_open v.files i e, read, back) refl

  pub read_file :
      (v : Vfs S) (i count buf : ℕ) (file : File) (fs : Fs S)
      → get_elem? v.files i ≡ some file
      → fs_at v file.filesystem ≡ some fs
      → read v (suc i) count buf ≡ reply v (fs.fs_read v.state file.file_num count buf file.pos)
  unfolding read_at
  read_file v i count buf file fs e at = read-read_at v i count buf e ∙ rw (e, read_at, at) refl

  -- On a valid table, read with the descriptor of an open file asks that file's file system for the
  -- bytes at the file's own position: the walk to the file never leaves the list.
  pub read_open_file :
      (v : Vfs S) (i count buf : ℕ)
      → IsValid v
      → i < length v.files
      → (file : File) × (fs : Fs S) × (get_elem? v.files i ≡ some file)
        × (fs_at v file.filesystem ≡ some fs)
        × (read v (suc i) count buf ≡ reply v (fs.fs_read v.state file.file_num count buf file.pos))
  read_open_file v i count buf valid h =
      let (file, e) = get_elem?-inside v.files i h in
      let (fs, at) =
        fs_at-inside v file.filesystem (AllOn-get (suc (length v.mounts)) v.files i valid e) in
      (file, fs, e, at, read_file v i count buf file fs e at)

  -- A file that was just opened, the list being shorter than 2 ^ 32, is read from its start, on the
  -- file system that opened it and with the number that fsOpen answered.
  pub read-open_file :
      (v : Vfs S) (filename : Text) (fd count buf : ℕ) (v' : Vfs S)
      → length v.files + 1 < 2 ^ 32
      → open_file v [] filename ≡ some (fd, v')
      → (k : ℕ) × (o : Opened v filename k fd v') × (read v' fd count buf
          ≡ reply v' (o.fs.fs_read v'.state o.num count buf 0))
  read-open_file v filename fd count buf v' short h =
      let (k, o, _) = open_file-Opened v filename fd v' h in
      let file : File = record { file_num = o.num; pos = 0; filesystem = k } in
      let here : get_elem? v'.files (length v.files) ≡ some file =
        rw o.files (get_elem?-append_here v.files file) in
      let at : fs_at v' k ≡ some o.fs = fs_at-same v v' k o.root_fs o.mounts ∙ o.at in
      let fd_is : fd ≡ suc (length v.files) = omega (arith, o.descriptor) in
      (k, o, rw fd_is (read_file v' (length v.files) count buf file o.fs here at))

  -- seek on an open file sets the position from which read asks for that file's bytes, and leaves
  -- the file's number, its file system, every other file, the mounts and the state.
  pub read-seek :
      (v : Vfs S) (i pos count buf : ℕ) (file : File) (fs : Fs S)
      → get_elem? v.files i ≡ some file
      → fs_at v file.filesystem ≡ some fs
      → (v' : Vfs S) × (seek v (suc i) pos ≡ some (0, v'))
        × (read v' (suc i) count buf ≡ reply v' (fs.fs_read v.state file.file_num count buf pos))
        × ((j : ℕ) → i ≢ j → get_elem? v'.files j ≡ get_elem? v.files j)
        × (v'.mounts ≡ v.mounts)
        × (v'.state ≡ v.state)
  unfolding seek
  read-seek v i pos count buf file fs e at =
      let file' : File = record file { pos = pos } in
      let v' : Vfs S = record v { files = set v.files i file' } in
      let here : get_elem? v'.files i ≡ some file' =
        get_elem?-set_self v.files i file' (length-of_get v.files i e) in
      (
        v',
        rw (e, seek) refl,
        read_file v' i count buf file' fs here (fs_at-same v v' file.filesystem refl refl ∙ at),
        λ j ne. get_elem?-set_ne v.files file' ne,
        refl,
        refl,
      )

  -- seek keeps every open file on a file system of the table.
  pub seek-IsValid :
      (v : Vfs S) (fd pos n : ℕ) (v' : Vfs S)
      → IsValid v
      → seek v fd pos ≡ some (n, v')
      → IsValid v'
  unfolding seek
  seek-IsValid v zero pos n v' valid h =
      let same : v ≡ v' = ap (λ (r : ℕ × Vfs S). r.1) (let e : (0, v) ≡ (n, v') = cc in e) in
      subst IsValid same valid
  seek-IsValid v (suc i) pos n v' valid h = elim (Option-cases (get_elem? v.files i)) [
    | inl e ↦ absurd (ground arith)
    | inr (file, e) ↦
        let made : Vfs S = record v { files = set v.files i (record file { pos = pos }) } in
        let opened : some (0, made) ≡ some (n, v') = sym (rw (e, seek) refl) ∙ h in
        let same : made ≡ v' =
          ap (λ (r : ℕ × Vfs S). r.1) (let e' : (0, made) ≡ (n, v') = cc in e') in
        subst IsValid same (
          AllOn-set (suc (length v.mounts)) v.files i (record file { pos = pos })
            (AllOn-get (suc (length v.mounts)) v.files i valid e) valid)
  ]

  -- Registering one more file system keeps every open file on a file system of the table.
  pub register_fs-IsValid : (v : Vfs S) (fs : Fs S) → IsValid v → IsValid (register_fs v fs)
  unfolding register_fs
  register_fs-IsValid v fs valid =
      AllOn-mono (suc (length v.mounts)) (suc (length (v.mounts ++ fs ∷ []))) v.files
        (omega (arith, length-append v.mounts (fs ∷ []))) valid
