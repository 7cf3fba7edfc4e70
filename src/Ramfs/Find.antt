-- ===== src/Ramfs/Find.antt =====
-- findDir finds what the path names.
use myreallyoldkernel.Paging.{Heap, kmalloc}
use myreallyoldkernel.Prelude.{
  ℕ, zero, suc, ◌≡◌, ◌≢◌, ◌≤◌, ◌<◌, inl, inr, refl, sym, ap, ◌∙◌, arith, Bool, true, false, some,
  List, [], ◌∷◌, ◌++◌, ◌==◌, if◌then◌else◌, length, length-append,
}
use myreallyoldkernel.Ramfs.{
  Entries, Ramfs, end_mark, split_name, skip_slash, tail, find_entry, find_path, find_dir,
}
use myreallyoldkernel.Ramfs.Tree.{NoSlash, IsName, AreNames, joined, path_of, Named, Steps}
use myreallyoldkernel.Vfs.{Text, slash, strcmp}
use myreallyoldkernel.Vfs.Mounts.{eq_of_strcmp, strcmp_self}

-- The test of a name.
pub same_test : (s t : Text) → s ≡ t → (strcmp s t == 0) ≡ true
same_test s t e = let z : strcmp s t ≡ 0 = rw e (strcmp_self t) in ground (arith, z)

pub other_test : (s t : Text) → s ≢ t → (strcmp s t == 0) ≡ false
other_test s t ne = let more : strcmp s t ≢ 0 = λ z. ne (eq_of_strcmp s t z) in ground (arith, more)

pub find_entry-Named :
    (walk n : ℕ) (entries : Entries) (name : Text) (found at : ℕ)
    → n < walk
    → Named entries name found n at
    → find_entry walk entries name at ≡ some found
unfolding find_entry
find_entry-Named zero n entries name found at h w = absurd (omega arith)
find_entry-Named (suc walk) zero entries name found at h (here, not_end, same) =
    let test = same_test (entries at).name name same in rw test (ap some here)
find_entry-Named (suc walk) (suc n) entries name found at h (not_end, differs, rest) =
    let test = other_test (entries at).name name differs in
    let inside : (at == end_mark) ≡ false = ground (arith, not_end) in
    rw (test, inside)
      (find_entry-Named walk n entries name found (entries at).next_dir (omega arith) rest)

Named-name :
    (entries : Entries) (name : Text) (found n at : ℕ)
    → Named entries name found n at
    → (entries found).name ≡ name
Named-name entries name found zero at (here, _, same) =
    sym (ap (λ (a : ℕ). (entries a).name) here) ∙ same
Named-name entries name found (suc n) at (_, _, rest) =
    Named-name entries name found n (entries at).next_dir rest

skip_slash-slash : (path : Text) → skip_slash (slash ∷ path) ≡ path
unfolding skip_slash
skip_slash-slash path = refl

skip_slash-name : (c : ℕ) (path : Text) → c ≢ slash → skip_slash (c ∷ path) ≡ c ∷ path
unfolding skip_slash
skip_slash-name c path ne = ground (arith, ne)

not_root : (name : Text) (names : List Text) → IsName name → joined (name ∷ names) ≢ slash ∷ []
unfolding joined
not_root [] names h e = h
not_root (c ∷ name) names h e = absurd (ground arith)

pub split_name-joined :
    (name : Text) (names : List Text)
    → NoSlash name
    → split_name (name ++ joined names) ≡ (name, joined names)
unfolding split_name joined
split_name-joined [] [] h = refl
split_name-joined [] (name ∷ names) h = refl
split_name-joined (c ∷ name) names h =
    let rest = split_name-joined name names h.1 in
    let test : (c == slash) ≡ false = ground (arith, h.0) in rw (test, rest) refl

-- One round of the loop, at a path whose next part is known, and what it leads to.
round :
    (fuel walk : ℕ) (entries : Entries) (c : ℕ) (path : Text) (name rest : Text) (at found n : ℕ)
    → n < walk
    → Named entries name found n at
    → (entries found).name ≡ name
    → split_name (skip_slash (c ∷ path)) ≡ (name, rest)
    → find_path (suc fuel) walk entries (c ∷ path) at ≡ (
        if (entries found).file == 1
        then some found
        else find_path fuel walk entries (tail rest) (entries found).extent)
unfolding find_path
round fuel walk entries c path name rest at found n h w same parts =
    let test = same_test (entries found).name name same in
    rw (find_path, parts, find_entry-Named walk n entries name found at h w, parts, test) refl

pub names_more :
    (fuel : ℕ) (name rest : Text)
    → IsName name
    → length (name ++ rest) ≤ suc fuel
    → length rest ≤ fuel
names_more fuel [] rest h e = absurd h
names_more fuel (c ∷ name) rest h e = omega (arith, length-append name rest)

-- The loop behind a slash, and at the start of a part. The fuel is for a round to each character.
find_path-Steps :
    (files : Bool) (fuel walk : ℕ) (entries : Entries) (names : List Text) (at end : ℕ)
    → AreNames names
    → length (joined names) ≤ fuel
    → Steps files walk entries names at end
    → (find_path fuel walk entries (joined names) at ≡ some end)
      × (find_path fuel walk entries (tail (joined names)) at ≡ some end)
unfolding find_path joined tail
find_path-Steps files fuel walk entries [] at end h enough w = (ap some w, ap some w)
find_path-Steps files zero walk entries (name ∷ names) at end h enough w = absurd (omega arith)
find_path-Steps files (suc fuel) walk entries ([] ∷ names) at end h enough w = absurd h.0
find_path-Steps files (suc fuel) walk entries ((c ∷ name) ∷ names) at end h enough
      (found, n, near, named, goes) =
    let rest_length = names_more fuel (c ∷ name) (joined names) h.0 (omega arith) in
    let parts = split_name-joined (c ∷ name) names h.0 in
    let same = Named-name entries (c ∷ name) found n at named in
    let behind = skip_slash-slash ((c ∷ name) ++ joined names) in
    let start = skip_slash-name c (name ++ joined names) h.0.0 in
    let ends : (if (entries found).file == 1
          then some found
          else find_path fuel walk entries (tail (joined names)) (entries found).extent)
        ≡ some end =
      elim goes [
        | inl (_, file, e) ↦
            let test : ((entries found).file == 1) ≡ true = ground (arith, file) in
            rw test (ap some e)
        | inr (dir, w) ↦
            let test : ((entries found).file == 1) ≡ false = ground (arith, dir) in
            rw test
              (find_path-Steps files fuel walk entries names (entries found).extent end h.1
                rest_length w).1
      ] in
    (
      round fuel walk entries slash ((c ∷ name) ++ joined names) (c ∷ name) (joined names) at found
            n near named same (ap split_name behind ∙ parts)
          ∙ ends,
      round fuel walk entries c (name ++ joined names) (c ∷ name) (joined names) at found n near
            named same (ap split_name start ∙ parts)
          ∙ ends,
    )

-- findDir of the path with parts `names`, which lead to `end`, with files or without, where kmalloc
-- has 25 bytes left, what the names overrun of these being left out: findDir returns `end`.
pub find_dir-Steps :
    (files : Bool) (walk : ℕ) (s : Ramfs) (names : List Text) (end block : ℕ) (heap : Heap)
    → AreNames names
    → Steps files walk s.entries names s.root_dir end
    → kmalloc s.heap 25 ≡ some (block, heap)
    → find_dir walk s (path_of names) ≡ some (end, record s { heap = heap })
unfolding find_dir path_of
find_dir-Steps files walk s [] end block heap h w got =
    rw (got, find_dir) (ap (λ (e : ℕ). some (e, record s { heap = heap })) w)
find_dir-Steps files walk s (name ∷ names) end block heap h w got =
    let path = joined (name ∷ names) in
    let (finds, _) =
      find_path-Steps files (length path) walk s.entries (name ∷ names) s.root_dir end h
        (omega arith) w in
    let test : (strcmp path (slash ∷ []) == 0) ≡ false =
      other_test path (slash ∷ []) (not_root name names h.0) in
    rw (got, find_dir, test, finds) refl
