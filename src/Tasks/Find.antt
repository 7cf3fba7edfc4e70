-- ===== src/Tasks/Find.antt =====
-- mapTaskPage: which task it finds in a ring.
use mathlib.Core.Path.{subst}
use native.Mathlib.Decide.{ℕ_discrete}
use myreallyoldkernel.Mapping.{map_page}
use myreallyoldkernel.Prelude.{
  ℕ, zero, suc, ◌-◌, ◌<◌, ◌^◌, ◌≡◌, ◌≢◌, refl, sym, ap, arith, ◌⊎◌, inl, inr, false, some, List, [],
  ◌∷◌, ◌++◌, ◌==◌, ==_refl, get_elem?, length,
}
use myreallyoldkernel.Tasks.{Store, Tasks, find_task, mapped, map_task_page}
use myreallyoldkernel.Tasks.Ring.{Linked, Fresh, Distinct, IsRing, ring}

-- No task of a list has the process id.
unfoldable pub NoneHas : Store → ℕ → List ℕ → Type 0
NoneHas store id [] = Unit
NoneHas store id (t ∷ ts) = ((store t).id ≢ id) × NoneHas store id ts

-- What the walk may answer: a task of the list with the id, or one without where no task has it.
abbrev pub Found : Store → ℕ → List ℕ → ℕ → Type 0
Found store id ts u =
    ((i : ℕ) × (get_elem? ts i ≡ some u) × ((store u).id ≡ id))
    ⊎ (NoneHas store id ts × ((store u).id ≢ id))

find_task-Found :
    (fuel : ℕ) (store : Store) (first id t : ℕ) (ts : List ℕ)
    → Fresh first ts
    → Linked store first (t ∷ ts)
    → length ts < fuel
    → (u : ℕ) × (find_task fuel store first id t ≡ some u) × Found store id (t ∷ ts) u
unfolding find_task Linked Fresh NoneHas
find_task-Found zero store first id t ts f l h = absurd (omega arith)
find_task-Found (suc fuel) store first id t [] f l h = (
  t,
  ground (arith, l),
  elim (ℕ_discrete (store t).id id) [ yes e ↦ inl (0, refl, e) | no ne ↦ inr ((ne, tt), ne) ],
)
find_task-Found (suc fuel) store first id t (u ∷ us) f l h = elim (ℕ_discrete (store t).id id) [
  | yes e ↦ (t, ground (arith, e), inl (0, refl, e))
  | no ne ↦
      let (v, found, what) = find_task-Found fuel store first id u us f.1 l.1 (omega arith) in
      let step : find_task (suc fuel) store first id t ≡ some v =
        ground (arith, l.0, f.0, found, ne) in
      (
        v,
        step,
        elim what [
          | inl (i, at, e) ↦ inl (suc i, at, e)
          | inr (none_has, e) ↦ inr ((ne, none_has), e)
        ],
      )
]

-- A ring is the first task and others.
ring_from_first :
    (s : Tasks) (before after : List ℕ)
    → IsRing s before after
    → (rest : List ℕ) × (ring before s.current_task after ≡ s.first_task ∷ rest)
      × Fresh s.first_task rest
unfolding Distinct
ring_from_first s [] after r =
    (after, ap (λ (t : ℕ). t ∷ after) (sym r.first), rw r.first r.distinct.0)
ring_from_first s (b ∷ bs) after r = (
  bs ++ s.current_task ∷ after,
  ap (λ (t : ℕ). t ∷ bs ++ s.current_task ∷ after) (sym r.first),
  rw r.first r.distinct.0,
)

-- mapTaskPage on a ring, with fuel for its tasks: where no task has the process id it answers -1 and
-- changes nothing; else it maps the page, for the kernel and writable, in the directory of a task of
-- the ring with that id.
pub map_task_page-Found :
    (fuel : ℕ) (s : Tasks) (before after : List ℕ) (id physical virtual : ℕ)
    → IsRing s before after
    → length (ring before s.current_task after) < suc fuel
    → (NoneHas s.store id (ring before s.current_task after)
        × (map_task_page fuel s id physical virtual ≡ some (2 ^ 32 - 1, s)))
      ⊎ ((u : ℕ) × (i : ℕ) × (get_elem? (ring before s.current_task after) i ≡ some u)
          × ((s.store u).id ≡ id)
          × (map_task_page fuel s id physical virtual
              ≡ mapped s (map_page s.heap.pages (s.store u).page_dir physical virtual 0 1)))
unfolding map_task_page
map_task_page-Found fuel s before after id physical virtual r enough =
    let (rest, is_ring, fresh) = ring_from_first s before after r in
    let linked = rw is_ring at r.linked in
    let size = rw is_ring at enough in
    let (u, found, what) =
      find_task-Found fuel s.store s.first_task id s.first_task rest fresh linked (omega arith) in
    elim what [
      | inl (i, at, e) ↦ inr (
        u,
        i,
        subst (λ (ts : List ℕ). get_elem? ts i ≡ some u) (sym is_ring) at,
        e,
        rw (map_task_page, found, e, ==_refl id) refl,
      )
      | inr (none_has, ne) ↦
          let other : ((s.store u).id == id) ≡ false = ground (arith, ne) in
          inl (
            subst (NoneHas s.store id) (sym is_ring) none_has,
            rw (map_task_page, found, other) refl,
          )
    ]
