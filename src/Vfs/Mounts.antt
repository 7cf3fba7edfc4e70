-- ===== src/Vfs/Mounts.antt =====
-- Which file system open chooses: the mount point that is the longest prefix of the name.
use mathlib.Core.Path.{subst}
use mathlib.Core.Bool.{false≢true}
use native.Mathlib.Decide.{ℕ_discrete}
use myreallyoldkernel.Vfs.{
  Text, strcmp, Fs, find_mount, Search, mounted, root, bad_pointer, is_slash, try_mount,
  search_from,
}
use myreallyoldkernel.Prelude.{
  ℕ, zero, suc, ◌+◌, ◌≤◌, ◌<◌, ◌≡◌, ◌≢◌, ◌⊎◌, inl, inr, ◌∙◌, refl, sym, ap, arith, true, none, some,
  List, [], ◌∷◌, ◌==◌, take, Bool-cases, Option-cases,
}

-- strcmp answers 0 exactly at equal strings.
pub eq_of_strcmp : (s t : Text) → strcmp s t ≡ 0 → s ≡ t
unfolding strcmp
eq_of_strcmp [] [] h = refl
eq_of_strcmp [] (d ∷ t) h = absurd (omega arith)
eq_of_strcmp (c ∷ s) [] h = absurd (omega arith)
eq_of_strcmp (c ∷ s) (d ∷ t) h = ground (arith, eq_of_strcmp s t)

pub strcmp_self : (s : Text) → strcmp s s ≡ 0
unfolding strcmp
strcmp_self [] = refl
strcmp_self (c ∷ s) = ground (arith, strcmp_self s)

module _ {S : Type 0} where
  -- No file system of the list is mounted at `name`.
  abbrev pub NotMounted : List (Fs S) → Text → Type 0
  NotMounted [] name = Unit {0}
  NotMounted (fs ∷ mounts) name = (fs.mountpoint ≢ name) × NotMounted mounts name

  -- `k` is the first position, counted from `i`, of a file system that is mounted at `name`.
  abbrev pub FirstMount : ℕ → List (Fs S) → Text → ℕ → Type 0
  FirstMount i [] name k = ⊥
  FirstMount i (fs ∷ mounts) name k =
      ((fs.mountpoint ≡ name) × (k ≡ i))
      ⊎ ((fs.mountpoint ≢ name) × FirstMount (i + 1) mounts name k)

  not_mounted :
      (mounts : List (Fs S)) (i : ℕ) (name : Text)
      → find_mount i mounts name ≡ none
      → NotMounted mounts name
  unfolding find_mount
  not_mounted [] i name h = tt
  not_mounted (fs ∷ mounts) i name h = (
    λ e. ground (arith, strcmp_self name, ap (λ t. strcmp t name) e),
    not_mounted mounts (i + 1) name (ground arith),
  )

  first_mount :
      (mounts : List (Fs S)) (i : ℕ) (name : Text) (k : ℕ)
      → find_mount i mounts name ≡ some k
      → FirstMount i mounts name k
  unfolding find_mount
  first_mount [] i name k h = cc
  first_mount (fs ∷ mounts) i name k h = elim (Bool-cases (strcmp fs.mountpoint name == 0)) [
    | inl e ↦ inl (eq_of_strcmp fs.mountpoint name (ground arith), ground arith)
    | inr n ↦ inr (
      λ e. ground (arith, strcmp_self name, ap (λ t. strcmp t name) e),
      first_mount mounts (i + 1) name k (ground arith),
    )
  ]

  -- What the search may answer for the prefixes of up to `n` characters that end before a slash.
  abbrev pub Resolves : List (Fs S) → Text → ℕ → Search → Type 0
  Resolves mounts name n (mounted k) =
      (j : ℕ) × (0 < j)
      × (j ≤ n)
      × (is_slash name j ≡ true)
      × FirstMount 1 mounts (take j name) k
      × ((i : ℕ) → j < i → i ≤ n → is_slash name i ≡ true → NotMounted mounts (take i name))
  Resolves mounts name n root =
      (i : ℕ) → 0 < i → i ≤ n → is_slash name i ≡ true → NotMounted mounts (take i name)
  Resolves mounts name n bad_pointer =
      (mounts ≡ []) × ((j : ℕ) × (0 < j) × (j ≤ n) × (is_slash name j ≡ true))

  -- Another length of prefix at which nothing is mounted changes no answer.
  Resolves-suc :
      (mounts : List (Fs S)) (name : Text) (n : ℕ) (r : Search)
      → (is_slash name (suc n) ≡ true → NotMounted mounts (take (suc n) name))
      → Resolves mounts name n r
      → Resolves mounts name (suc n) r
  Resolves-suc mounts name n (mounted k) out (j, pos, le, s, at, longer) = (
    j,
    pos,
    omega arith,
    s,
    at,
    λ i lo hi t. elim (ℕ_discrete i (suc n)) [
      | yes e ↦ subst (λ (m : ℕ). NotMounted mounts (take m name)) (sym e) (out (rw (← e) t))
      | no ne ↦ longer i lo (omega arith) t
    ],
  )
  Resolves-suc mounts name n root out none_at = λ i pos hi t. elim (ℕ_discrete i (suc n)) [
    | yes e ↦ subst (λ (m : ℕ). NotMounted mounts (take m name)) (sym e) (out (rw (← e) t))
    | no ne ↦ none_at i pos (omega arith) t
  ]
  Resolves-suc mounts name n bad_pointer out (e, (j, pos, le, s)) = (e, (j, pos, omega arith, s))

  try_mount-Resolves :
      (mounts : List (Fs S)) (name : Text) (n : ℕ) (r : Search)
      → is_slash name (suc n) ≡ true
      → Resolves mounts name n r
      → Resolves mounts name (suc n) (try_mount mounts (take (suc n) name) r)
  unfolding try_mount
  try_mount-Resolves [] name n r s h = (refl, (suc n, omega arith, omega arith, s))
  try_mount-Resolves (fs ∷ others) name n r s h =
      elim (Option-cases (find_mount 1 (fs ∷ others) (take (suc n) name))) [
        | inl e ↦
            let same : try_mount (fs ∷ others) (take (suc n) name) r ≡ r = rw (e, try_mount) in
            subst (Resolves (fs ∷ others) name (suc n)) (sym same) (
              Resolves-suc (fs ∷ others) name n r
                (λ _. not_mounted (fs ∷ others) 1 (take (suc n) name) e) h)
        | inr (k, e) ↦
            let same : try_mount (fs ∷ others) (take (suc n) name) r ≡ mounted k =
              rw (e, try_mount) in
            subst (Resolves (fs ∷ others) name (suc n)) (sym same) (
              suc n,
              omega arith,
              omega arith,
              s,
              first_mount (fs ∷ others) 1 (take (suc n) name) k e,
              λ i lo hi t. absurd (omega arith),
            )
      ]

  -- The search of open over the prefixes of a name that end before a slash: it answers the first
  -- file system mounted at the longest of them that is a mount point, the root where none is, and
  -- reads a bad pointer only where nothing is mounted and there is such a prefix.
  pub search_from-Resolves :
      (mounts : List (Fs S)) (name : Text) (n : ℕ)
      → Resolves mounts name n (search_from mounts name n)
  unfolding search_from
  search_from-Resolves mounts name zero = λ i pos hi t. absurd (omega arith)
  search_from-Resolves mounts name (suc n) = elim (Bool-cases (is_slash name (suc n))) [
    | inl s ↦ rw s (
        try_mount-Resolves mounts name n (search_from mounts name n) s
          (search_from-Resolves mounts name n))
    | inr s ↦ rw s (
        Resolves-suc mounts name n (search_from mounts name n)
          (λ t. absurd (false≢true (sym s ∙ t))) (search_from-Resolves mounts name n))
  ]
