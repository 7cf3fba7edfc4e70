-- ===== src/Vfs/Steps.antt =====
-- The file table as a state machine: the states that the calls of vfs.c lead to.
use mathlib.Core.Path.{subst}
use myreallyoldkernel.Vfs.{
  Text, Fs, File, Vfs, register_root_fs, register_fs, fs_at, open_file, nothing_open, reply,
  read_at, read, seek,
}
use myreallyoldkernel.Vfs.Open.{IsValid, open_file-IsValid}
use myreallyoldkernel.Vfs.Files.{seek-IsValid, register_fs-IsValid, read_open_file}
use myreallyoldkernel.Prelude.{
  ℕ, suc, ◌-◌, ◌^◌, ◌<◌, ◌≡◌, inl, inr, ◌∙◌, refl, sym, ap, arith, Bool, true, false, Option, none,
  some, get_elem?, length, Option-cases,
}

module _ {S : Type 0} where
  -- One call that returns. `behind` is what follows open's copy of the name on its stack.
  pub data Step : Vfs S → Vfs S → Type 0 where
    registers : {v : Vfs S} (fs : Fs S) → Step v (register_fs v fs)
    opens :
        {v v' : Vfs S} (behind filename : Text) (fd : ℕ)
        → open_file v behind filename ≡ some (fd, v')
        → Step v v'
    reads : {v v' : Vfs S} (fd count buf n : ℕ) → read v fd count buf ≡ some (n, v') → Step v v'
    seeks : {v v' : Vfs S} (fd pos n : ℕ) → seek v fd pos ≡ some (n, v') → Step v v'

  -- The states behind registerRootFS.
  pub data Reached : Vfs S → Type 0 where
    starts : (fs : Fs S) (s : S) → Reached (register_root_fs fs s)
    goes_on : {v v' : Vfs S} → Reached v → Step v v' → Reached v'

  reply-IsValid :
      (v v' : Vfs S) (n : ℕ) (answer : Option (ℕ × S))
      → IsValid v
      → reply v answer ≡ some (n, v')
      → IsValid v'
  reply-IsValid v v' n none valid h = absurd (ground arith)
  reply-IsValid v v' n (some (m, s)) valid h =
      let e : (m, record v { state = s }) ≡ (n, v') = cc in
      subst IsValid (ap (λ (r : ℕ × Vfs S). r.1) e) valid

  read_at-IsValid :
      (v v' : Vfs S) (i count buf n : ℕ)
      → IsValid v
      → read_at v i count buf ≡ some (n, v')
      → IsValid v'
  unfolding read_at
  read_at-IsValid v v' i count buf n valid h = elim (Option-cases (get_elem? v.files i)) [
    | inl e ↦ absurd (ground arith)
    | inr (file, e) ↦ elim (Option-cases (fs_at v file.filesystem)) [
      | inl e' ↦ absurd (ground arith)
      | inr (fs, e') ↦
          reply-IsValid v v' n (fs.fs_read v.state file.file_num count buf file.pos) valid
            (sym (rw (e, read_at, e') refl) ∙ h)
    ]
  ]

  read-IsValid :
      (v v' : Vfs S) (fd count buf n : ℕ) (nothing : Bool)
      → nothing_open v.files ≡ nothing
      → IsValid v
      → read v fd count buf ≡ some (n, v')
      → IsValid v'
  unfolding read
  read-IsValid v v' fd count buf n true e valid h =
      let same : some (2 ^ 32 - 1, v) ≡ some (n, v') = sym (rw (e, read) refl) ∙ h in
      let pair : (2 ^ 32 - 1, v) ≡ (n, v') = cc in
      subst IsValid (ap (λ (r : ℕ × Vfs S). r.1) pair) valid
  read-IsValid v v' fd count buf n false e valid h =
      read_at-IsValid v v' (fd - 1) count buf n valid (sym (rw (e, read) refl) ∙ h)

  Step-IsValid : (v v' : Vfs S) → Step v v' → IsValid v → IsValid v'
  Step-IsValid v _ (registers fs) valid = register_fs-IsValid v fs valid
  Step-IsValid v v' (opens behind filename fd h) valid =
      open_file-IsValid v behind filename fd v' valid h
  Step-IsValid v v' (reads fd count buf n h) valid =
      read-IsValid v v' fd count buf n (nothing_open v.files) refl valid h
  Step-IsValid v v' (seeks fd pos n h) valid = seek-IsValid v fd pos n v' valid h

  Reached-IsValid : (v : Vfs S) → Reached v → IsValid v
  unfolding register_root_fs
  Reached-IsValid _ (starts fs s) = tt
  Reached-IsValid v' (goes_on {v} r step) = Step-IsValid v v' step (Reached-IsValid v r)

  -- In each state that registerFS, open, read and seek lead to from registerRootFS, read with the
  -- descriptor of an open file asks a file system of the table for the file's bytes at its position.
  pub read-Reached :
      (v : Vfs S) (i count buf : ℕ)
      → Reached v
      → i < length v.files
      → (file : File) × (fs : Fs S) × (get_elem? v.files i ≡ some file)
        × (fs_at v file.filesystem ≡ some fs)
        × (read v (suc i) count buf ≡ reply v (fs.fs_read v.state file.file_num count buf file.pos))
  read-Reached v i count buf r h = read_open_file v i count buf (Reached-IsValid v r) h
