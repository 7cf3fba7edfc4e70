-- ===== src/Vfs/Open.antt =====
-- What open does with a name and with the list of open files.
use mathlib.Core.Path.{subst}
use mathlib.Core.List.{append-nil}
use native.Mathlib.Decide.{ℕ_discrete}
use myreallyoldkernel.Vfs.{
  Text, Fs, Vfs, Search, mounted, root, bad_pointer, try_mount, search_from, fs_at, is_slash,
  open_on, open_as, open_file,
}
use myreallyoldkernel.Vfs.Mounts.{Resolves, search_from-Resolves}
use myreallyoldkernel.Vfs.Table.{AllOn, AllOn-append, get_elem?-inside, length-of_get}
use myreallyoldkernel.Prelude.{
  ℕ, zero, suc, ◌+◌, ◌%◌, ◌^◌, ◌≤◌, ◌<◌, ◌≡◌, ◌⊎◌, inl, inr, ◌∙◌, refl, sym, ap, arith, true, none,
  some, List, [], ◌∷◌, ◌++◌, get_elem?, length, Option-cases,
}

search_from_unmounted :
    (S : Type 0) (name : Text) (n j : ℕ)
    → 0 < j
    → j ≤ n
    → is_slash name j ≡ true
    → search_from {S = S} [] name n ≡ bad_pointer
unfolding search_from try_mount
search_from_unmounted S name zero j pos le s = absurd (omega arith)
search_from_unmounted S name (suc n) j pos le s = elim (ℕ_discrete j (suc n)) [
  | yes e ↦ let here : is_slash name (suc n) ≡ true = rw (← e) s in rw here
  | no ne ↦ ground (arith, search_from_unmounted S name n j)
]

module _ {S : Type 0} where
  -- Every open file belongs to a file system of the table.
  abbrev pub IsValid : Vfs S → Type 0
  IsValid v = AllOn (suc (length v.mounts)) v.files

  pub fs_at-inside :
      (v : Vfs S) (k : ℕ) → k < suc (length v.mounts) → (fs : Fs S) × (fs_at v k ≡ some fs)
  unfolding fs_at
  fs_at-inside v zero h = (v.root_fs, refl)
  fs_at-inside v (suc k) h = get_elem?-inside v.mounts k (omega arith)

  pub lt_of_fs_at :
      (v : Vfs S) (k : ℕ) {fs : Fs S} → fs_at v k ≡ some fs → k < suc (length v.mounts)
  unfolding fs_at
  lt_of_fs_at v zero e = omega arith
  lt_of_fs_at v (suc k) e = omega (arith, length-of_get v.mounts k e)

  pub fs_at-same :
      (v v' : Vfs S) (k : ℕ)
      → v'.root_fs ≡ v.root_fs
      → v'.mounts ≡ v.mounts
      → fs_at v' k ≡ fs_at v k
  unfolding fs_at
  fs_at-same v v' zero r m = ap some r
  fs_at-same v v' (suc k) r m = ap (λ (xs : List (Fs S)). get_elem? xs k) m

  -- What a successful open has done with file system `k`.
  pub record Opened (v : Vfs S) (filename : Text) (k fd : ℕ) (v' : Vfs S) : Type 0 where
    pub fs : Fs S
    pub num : ℕ
    pub at : fs_at v k ≡ some fs
    pub answer : fs.fs_open v.state filename fs.bus fs.device ≡ some (num, v'.state)
    pub descriptor : fd ≡ (length v.files + 1) % 2 ^ 32
    pub files : v'.files ≡ v.files ++ record { file_num = num; pos = 0; filesystem = k } ∷ []
    pub root_fs : v'.root_fs ≡ v.root_fs
    pub mounts : v'.mounts ≡ v.mounts

  open_on-Opened :
      (v : Vfs S) (filename : Text) (k fd : ℕ) (v' : Vfs S)
      → open_on v filename k ≡ some (fd, v')
      → Opened v filename k fd v'
  unfolding open_on
  open_on-Opened v filename k fd v' h = elim (Option-cases (fs_at v k)) [
    | inl e ↦ absurd (ground arith)
    | inr (fs, e) ↦ elim (Option-cases (fs.fs_open v.state filename fs.bus fs.device)) [
      | inl e' ↦ absurd (ground arith)
      | inr ((num, s), e') ↦
          let made : ℕ × Vfs S = (
            (length v.files + 1) % 2 ^ 32,
            record v {
              files = v.files ++ record { file_num = num; pos = 0; filesystem = k } ∷ [];
              state = s;
            },
          ) in
          let same : some made ≡ some (fd, v') = sym (rw (e, e', open_on) refl) ∙ h in
          let eq : made ≡ (fd, v') = cc in
          record {
            fs = fs;
            num = num;
            at = e;
            answer = e' ∙ ap (λ (r : ℕ × Vfs S). some (num, r.1.state)) eq;
            descriptor = sym (ap (λ (r : ℕ × Vfs S). r.0) eq);
            files = sym (ap (λ (r : ℕ × Vfs S). r.1.files) eq);
            root_fs = sym (ap (λ (r : ℕ × Vfs S). r.1.root_fs) eq);
            mounts = sym (ap (λ (r : ℕ × Vfs S). r.1.mounts) eq);
          }
    ]
  ]

  -- `k` is the file system that the rules of open give a name.
  abbrev pub Chosen : Vfs S → Text → ℕ → Type 0
  Chosen v name k =
      Resolves v.mounts name (length name) (mounted k)
      ⊎ ((k ≡ 0) × Resolves v.mounts name (length name) root)

  open_as-Opened :
      (v : Vfs S) (temp filename : Text) (fd : ℕ) (v' : Vfs S) (r : Search)
      → search_from v.mounts temp (length temp) ≡ r
      → open_as v temp filename ≡ some (fd, v')
      → (k : ℕ) × Opened v filename k fd v' × Chosen v temp k
  unfolding open_as
  open_as-Opened v temp filename fd v' (mounted k) e h =
      let found =
        subst (Resolves v.mounts temp (length temp)) e
          (search_from-Resolves v.mounts temp (length temp)) in
      let same : open_as v temp filename ≡ open_on v filename k = rw (e, open_as) in
      (k, open_on-Opened v filename k fd v' (sym same ∙ h), inl found)
  open_as-Opened v temp filename fd v' root e h =
      let found =
        subst (Resolves v.mounts temp (length temp)) e
          (search_from-Resolves v.mounts temp (length temp)) in
      let same : open_as v temp filename ≡ open_on v filename 0 = rw (e, open_as) in
      (0, open_on-Opened v filename 0 fd v' (sym same ∙ h), inr (refl, found))
  open_as-Opened v temp filename fd v' bad_pointer e h =
      let same : open_as v temp filename ≡ none = rw (e, open_as) in cc

  -- What a successful open has done, where the byte behind its copy of the name is zero: it opened
  -- the whole name on the file system at the longest mount point among the prefixes of the name that
  -- end before a slash behind its first character, or on the root where there is none, and appended one file at position 0; the descriptor is its place.
  pub open_file-Opened :
      (v : Vfs S) (filename : Text) (fd : ℕ) (v' : Vfs S)
      → open_file v [] filename ≡ some (fd, v')
      → (k : ℕ) × Opened v filename k fd v' × Chosen v filename k
  unfolding open_file
  open_file-Opened v filename fd v' h =
      open_as-Opened v filename filename fd v' (search_from v.mounts filename (length filename))
        refl (subst (λ t. open_as v t filename ≡ some (fd, v')) (append-nil filename) h)

  -- With no file system but the root registered, open of a name with a slash behind its first
  -- character follows the end mark of the list: it has no result.
  pub open_file_unmounted :
      (v : Vfs S) (filename : Text) (j : ℕ)
      → v.mounts ≡ []
      → 0 < j
      → j ≤ length filename
      → is_slash filename j ≡ true
      → open_file v [] filename ≡ none
  unfolding open_file
  open_file_unmounted v filename j none_mounted pos le s =
      let found : search_from v.mounts filename (length filename) ≡ bad_pointer =
        rw none_mounted (search_from_unmounted S filename (length filename) j pos le s) in
      let same : open_as v filename filename ≡ none = rw (found, open_as) in
      subst (λ t. open_as v t filename ≡ none) (sym (append-nil filename)) same

  -- Opening keeps every open file on a file system of the table.
  pub open_file-IsValid :
      (v : Vfs S) (behind filename : Text) (fd : ℕ) (v' : Vfs S)
      → IsValid v
      → open_file v behind filename ≡ some (fd, v')
      → IsValid v'
  unfolding open_file
  open_file-IsValid v behind filename fd v' valid h =
      let temp = filename ++ behind in
      let (k, o, _) =
        open_as-Opened v temp filename fd v' (search_from v.mounts temp (length temp)) refl h in
      rw (o.files, o.mounts)
        (AllOn-append (suc (length v.mounts)) v.files _ valid (lt_of_fs_at v k o.at, tt))
