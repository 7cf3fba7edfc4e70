-- ===== src/Vfs/Table.antt =====
-- The list of open files, and the file systems that they belong to.
use myreallyoldkernel.Vfs.{File, nothing_open}
use myreallyoldkernel.Prelude.{
  ℕ, zero, suc, ◌≤◌, ◌<◌, ◌≡◌, refl, arith, false, some, List, [], ◌∷◌, ◌++◌, get_elem?, set,
  length,
}

-- The files belong to the first `n` file systems, the root included.
abbrev pub AllOn : ℕ → List File → Type 0
AllOn n [] = Unit {0}
AllOn n (file ∷ files) = (file.filesystem < n) × AllOn n files

pub AllOn-append : (n : ℕ) (xs ys : List File) → AllOn n xs → AllOn n ys → AllOn n (xs ++ ys)
AllOn-append n [] ys hx hy = hy
AllOn-append n (x ∷ xs) ys hx hy = (hx.0, AllOn-append n xs ys hx.1 hy)

pub AllOn-mono : (n m : ℕ) (xs : List File) → n ≤ m → AllOn n xs → AllOn m xs
AllOn-mono n m [] le h = tt
AllOn-mono n m (x ∷ xs) le h = (omega arith, AllOn-mono n m xs le h.1)

pub AllOn-set :
    (n : ℕ) (xs : List File) (i : ℕ) (file : File)
    → file.filesystem < n
    → AllOn n xs
    → AllOn n (set xs i file)
AllOn-set n [] i file lt h = tt
AllOn-set n (x ∷ xs) zero file lt h = (lt, h.1)
AllOn-set n (x ∷ xs) (suc i) file lt h = (h.0, AllOn-set n xs i file lt h.1)

pub AllOn-get :
    (n : ℕ) (xs : List File) (i : ℕ) {file : File}
    → AllOn n xs
    → get_elem? xs i ≡ some file
    → file.filesystem < n
AllOn-get n [] i h e = cc
AllOn-get n (x ∷ xs) zero h e = ground (arith, h.0)
AllOn-get n (x ∷ xs) (suc i) h e = AllOn-get n xs i h.1 e

pub get_elem?-append_here {ℓ} :
    {A : Type ℓ} (xs : List A) (y : A) → get_elem? (xs ++ y ∷ []) (length xs) ≡ some y
get_elem?-append_here [] y = refl
get_elem?-append_here (x ∷ xs) y = get_elem?-append_here xs y

pub get_elem?-inside {ℓ} :
    {A : Type ℓ} (xs : List A) (i : ℕ) → i < length xs → (a : A) × (get_elem? xs i ≡ some a)
get_elem?-inside [] i h = absurd (omega arith)
get_elem?-inside (x ∷ xs) zero h = (x, refl)
get_elem?-inside (x ∷ xs) (suc i) h = get_elem?-inside xs i (omega arith)

pub length-of_get {ℓ} :
    {A : Type ℓ} (xs : List A) (i : ℕ) {a : A} → get_elem? xs i ≡ some a → i < length xs
length-of_get [] i e = cc
length-of_get (x ∷ xs) zero e = omega arith
length-of_get (x ∷ xs) (suc i) e = omega (arith, length-of_get xs i e)

pub something_open :
    (xs : List File) (i : ℕ) {file : File} → get_elem? xs i ≡ some file → nothing_open xs ≡ false
unfolding nothing_open
something_open [] i e = cc
something_open (x ∷ xs) i e = refl
