-- ===== src/Tasks/Fork.antt =====
-- fork up to readEip: the new task in the ring.
use myreallyoldkernel.Mapping.{clone_page_directory}
use myreallyoldkernel.Paging.{Pages, Heap, kmalloc, ◌+w◌}
use myreallyoldkernel.Prelude.{
  ℕ, ◌<◌, ◌≡◌, ◌≢◌, arith, sym, refl, ap, ◌∙◌, some, List, [], ◌∷◌, ◌++◌, length,
}
use myreallyoldkernel.Tasks.{Task, Store, Tasks, task_size, store_task, link_task, new_task}
use myreallyoldkernel.Tasks.Ring.{
  Fresh, IsRing, ring, last_of, Fresh-last_of, Linked-store_task, last_task_lem, IsRing-Fresh,
  Linked-append_ring, append_one, store_task_self, store_task_ne, Linked-suffix, Fresh-suffix,
  Distinct-append,
}

-- fork's walk and link, where the new task is a struct outside of the ring that already points to
-- the first task: with fuel for the tasks behind the current one, the ring has it at its end.
pub link_task-IsRing :
    (fuel : ℕ) (s : Tasks) (before after : List ℕ) (new : ℕ)
    → IsRing s before after
    → Fresh new (ring before s.current_task after)
    → (s.store new).next_task ≡ s.first_task
    → length after < fuel
    → let last = last_of s.current_task after in
      let s' : Tasks = record s {
        store = store_task s.store last (record (s.store last) { next_task = new });
      } in
      (link_task fuel s new ≡ some s') × IsRing s' before (after ++ new ∷ [])
unfolding link_task
link_task-IsRing fuel s before after new r fresh closed enough =
    let c = s.current_task in
    let found =
      last_task_lem fuel s.store s.first_task c after (IsRing-Fresh s before after r)
        (Linked-suffix s.store s.first_task c before after r.linked) enough in
    let linked =
      Linked-append_ring s.store s.first_task new c before after r.distinct fresh closed r.linked in
    (
      rw (found, link_task) refl,
      record {
        first = r.first;
        linked = rw (← append_one before after c new) linked;
        distinct =
            rw (← append_one before after c new)
              (Distinct-append new (ring before c after) r.distinct fresh);
      },
    )

id-next_task :
    (store : Store) (at new t : ℕ)
    → (store_task store at (record (store at) { next_task = new }) t).id ≡ (store t).id
unfolding store_task
id-next_task store at new t = ground (arith, ap (λ (x : ℕ). (store x).id))

Fresh-head : (x c : ℕ) (before after : List ℕ) → Fresh x (before ++ c ∷ after) → x ≢ c
unfolding Fresh
Fresh-head x c before after f = (Fresh-suffix x c before after f).0

-- fork up to readEip, where the block that kmalloc returns is no task of the ring and the current
-- page directory can be cloned: with fuel for the tasks behind the current one it succeeds, the ring
-- has the new task at its end, with the next process id and the cloned directory, and the current
-- task stays, with its process id.
pub new_task-IsRing :
    (fuel : ℕ) (s : Tasks) (before after : List ℕ) (task : ℕ) (heap : Heap) (dir : ℕ)
    (pages : Pages)
    → IsRing s before after
    → kmalloc s.heap task_size ≡ some (task, heap)
    → clone_page_directory heap.pages s.page_directory (s.store s.current_task).page_dir
      ≡ some (dir, pages)
    → Fresh task (ring before s.current_task after)
    → length after < fuel
    → (s' : Tasks) × (new_task fuel s ≡ some (task, s'))
      × IsRing s' before (after ++ task ∷ [])
      × ((s'.store task).id ≡ s.pid)
      × ((s'.store task).page_dir ≡ dir)
      × (s'.pid ≡ s.pid +w 1)
      × (s'.current_task ≡ s.current_task)
      × ((s'.store s.current_task).id ≡ (s.store s.current_task).id)
unfolding new_task
new_task-IsRing fuel s before after task heap dir pages r block cloned fresh enough =
    let c = s.current_task in
    let fields : Task = record (s.store task) {
      id = s.pid;
      next_task = s.first_task;
      page_dir = dir;
    } in
    let made : Tasks = record s {
      heap = record heap { pages = pages };
      store = store_task s.store task fields;
      pid = s.pid +w 1;
    } in
    let ring_made : IsRing made before after = record {
      first = r.first;
      linked =
          Linked-store_task s.store s.first_task task fields (ring before c after) fresh r.linked;
      distinct = r.distinct;
    } in
    let here = store_task_self s.store task fields in
    let (linked, ring_after) =
      link_task-IsRing fuel made before after task ring_made fresh
        (ap (λ (t : Task). t.next_task) here) enough in
    let last = last_of c after in
    let other : c ≢ task = λ e. (Fresh-head task c before after fresh) (sym e) in
    let kept =
      store_task_ne made.store last task (record (made.store last) { next_task = task })
        (Fresh-last_of task c after (Fresh-suffix task c before after fresh))
      ∙ here in
    (
      record made {
        store = store_task made.store last (record (made.store last) { next_task = task });
      },
      rw (block, new_task, cloned, linked) refl,
      ring_after,
      ap (λ (t : Task). t.id) kept,
      ap (λ (t : Task). t.page_dir) kept,
      refl,
      refl,
      id-next_task made.store last task c
          ∙ ap (λ (t : Task). t.id) (store_task_ne s.store task c fields other),
    )
