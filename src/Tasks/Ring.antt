-- ===== src/Tasks/Ring.antt =====
-- The ring of tasks, its walk and the place behind its last task.
use mathlib.Core.List.{append_assoc}
use myreallyoldkernel.Prelude.{
  ℕ, zero, suc, ◌<◌, ◌≡◌, ◌≢◌, refl, sym, arith, false, some, List, [], ◌∷◌, ◌++◌, ◌==◌, length,
  ==_refl,
}
use myreallyoldkernel.Tasks.{Task, Store, Tasks, store_task, last_task}

-- Each task's next one is the next of the list, and the last one's is the first task.
unfoldable pub Linked : Store → ℕ → List ℕ → Type 0
Linked store first [] = Unit
Linked store first (t ∷ []) = (store t).next_task ≡ first
Linked store first (t ∷ u ∷ ts) = ((store t).next_task ≡ u) × Linked store first (u ∷ ts)

unfoldable pub Fresh : ℕ → List ℕ → Type 0
Fresh x [] = Unit
Fresh x (t ∷ ts) = (x ≢ t) × Fresh x ts

unfoldable pub Distinct : List ℕ → Type 0
Distinct [] = Unit
Distinct (t ∷ ts) = Fresh t ts × Distinct ts

abbrev pub last_of : ℕ → List ℕ → ℕ
last_of t [] = t
last_of t (u ∷ us) = last_of u us

pub store_task_self : (store : Store) (at : ℕ) (task : Task) → store_task store at task at ≡ task
unfolding store_task
store_task_self store at task = rw (==_refl at) refl

pub store_task_ne :
    (store : Store) (at other : ℕ) (task : Task)
    → other ≢ at
    → store_task store at task other ≡ store other
unfolding store_task
store_task_ne store at other task ne = ground arith

pub Fresh-last_of : (x t : ℕ) (ts : List ℕ) → Fresh x (t ∷ ts) → x ≢ last_of t ts
unfolding Fresh
Fresh-last_of x t [] f = f.0
Fresh-last_of x t (u ∷ us) f = Fresh-last_of x u us f.1

-- A write to a struct outside of the ring keeps it.
pub Linked-store_task :
    (store : Store) (first at : ℕ) (task : Task) (ts : List ℕ)
    → Fresh at ts
    → Linked store first ts
    → Linked (store_task store at task) first ts
unfolding Linked Fresh
Linked-store_task store first at task [] f l = tt
Linked-store_task store first at task (t ∷ []) f l =
    rw (store_task_ne store at t task (λ e. f.0 (sym e))) l
Linked-store_task store first at task (t ∷ u ∷ ts) f l = (
  rw (store_task_ne store at t task (λ e. f.0 (sym e))) l.0,
  Linked-store_task store first at task (u ∷ ts) f.1 l.1,
)

-- The walk of fork ends at the last task, with fuel for each task of the list.
pub last_task_lem :
    (fuel : ℕ) (store : Store) (first t : ℕ) (ts : List ℕ)
    → Fresh first ts
    → Linked store first (t ∷ ts)
    → length ts < fuel
    → last_task fuel store first t ≡ some (last_of t ts)
unfolding last_task Linked Fresh
last_task_lem zero store first t ts f l h = absurd (omega arith)
last_task_lem (suc fuel) store first t [] f l h = rw (l, ==_refl first) refl
last_task_lem (suc fuel) store first t (u ∷ us) f l h =
    let rest = last_task_lem fuel store first u us f.1 l.1 (omega arith) in
    let other : (u == first) ≡ false = ground (arith, f.0) in rw (l.0, other) rest

-- The last task's new successor closes the ring.
Linked-append :
    (store : Store) (first new t : ℕ) (ts : List ℕ)
    → Distinct (t ∷ ts)
    → Fresh new (t ∷ ts)
    → (store new).next_task ≡ first
    → Linked store first (t ∷ ts)
    → let last = last_of t ts in
      Linked
        (store_task store last (record (store last) { next_task = new }))
        first
        (t ∷ ts ++ new ∷ [])
unfolding Linked Fresh Distinct
Linked-append store first new t [] d f n l = (
  rw (store_task_self store t (record (store t) { next_task = new })) refl,
  rw (store_task_ne store t new (record (store t) { next_task = new }) f.0) n,
)
Linked-append store first new t (u ∷ us) d f n l =
    let last = last_of u us in
    (
      rw
          (store_task_ne store last t (record (store last) { next_task = new })
            (Fresh-last_of t u us d.0))
          l.0,
      Linked-append store first new u us d.1 f.1 n l.1,
    )

pub Linked-suffix :
    (store : Store) (first c : ℕ) (before after : List ℕ)
    → Linked store first (before ++ c ∷ after)
    → Linked store first (c ∷ after)
unfolding Linked
Linked-suffix store first c [] after l = l
Linked-suffix store first c (b ∷ []) after l = l.1
Linked-suffix store first c (b ∷ b' ∷ bs) after l = Linked-suffix store first c (b' ∷ bs) after l.1

pub Fresh-suffix :
    (x c : ℕ) (before after : List ℕ) → Fresh x (before ++ c ∷ after) → Fresh x (c ∷ after)
unfolding Fresh
Fresh-suffix x c [] after f = f
Fresh-suffix x c (b ∷ bs) after f = Fresh-suffix x c bs after f.1

pub last_of-append :
    (d c : ℕ) (before after : List ℕ) → last_of d (before ++ c ∷ after) ≡ last_of c after
last_of-append d c [] after = refl
last_of-append d c (b ∷ bs) after = last_of-append b c bs after

pub Fresh-append : (x y : ℕ) (ts : List ℕ) → Fresh x ts → x ≢ y → Fresh x (ts ++ y ∷ [])
unfolding Fresh
Fresh-append x y [] f ne = (ne, tt)
Fresh-append x y (t ∷ ts) f ne = (f.0, Fresh-append x y ts f.1 ne)

pub Distinct-append : (y : ℕ) (ts : List ℕ) → Distinct ts → Fresh y ts → Distinct (ts ++ y ∷ [])
unfolding Distinct Fresh
Distinct-append y [] d f = (tt, tt)
Distinct-append y (t ∷ ts) d f =
    (Fresh-append t y ts d.0 (λ e. f.0 (sym e)), Distinct-append y ts d.1 f.1)

abbrev pub head_of : List ℕ → ℕ → ℕ
head_of [] c = c
head_of (b ∷ bs) c = b

-- The ring from the first task on; the current one stands behind `before`.
abbrev pub ring : List ℕ → ℕ → List ℕ → List ℕ
ring before current after = before ++ current ∷ after

pub record IsRing (s : Tasks) (before after : List ℕ) : Type 0 where
  pub first : s.first_task ≡ head_of before s.current_task
  pub linked : Linked s.store s.first_task (ring before s.current_task after)
  pub distinct : Distinct (ring before s.current_task after)

pub IsRing-Fresh :
    (s : Tasks) (before after : List ℕ) → IsRing s before after → Fresh s.first_task after
unfolding Fresh Distinct
IsRing-Fresh s [] after r = rw (r.first) r.distinct.0
IsRing-Fresh s (b ∷ bs) after r =
    rw (r.first) ((Fresh-suffix b s.current_task bs after r.distinct.0).1)

pub append_one :
    (before after : List ℕ) (c new : ℕ)
    → ring before c after ++ new ∷ [] ≡ ring before c (after ++ new ∷ [])
append_one before after c new = append_assoc before (c ∷ after) (new ∷ [])

pub Linked-append_ring :
    (store : Store) (first new c : ℕ) (before after : List ℕ)
    → Distinct (ring before c after)
    → Fresh new (ring before c after)
    → (store new).next_task ≡ first
    → Linked store first (ring before c after)
    → let last = last_of c after in
      Linked
        (store_task store last (record (store last) { next_task = new }))
        first
        (ring before c after ++ new ∷ [])
Linked-append_ring store first new c [] after d f n l =
    Linked-append store first new c after d f n l
Linked-append_ring store first new c (b ∷ bs) after d f n l =
    rw (← last_of-append b c bs after) (Linked-append store first new b (bs ++ c ∷ after) d f n l)
