-- ===== src/Tasks/Turns.antt =====
-- switchTasks on a ring: whose turn it is, and what each task gets back.
use myreallyoldkernel.Prelude.{ℕ, ◌≡◌, ap, ◌∙◌, arith, bit_and, List, [], ◌∷◌, ◌++◌}
use myreallyoldkernel.Tasks.{Registers, Store, Tasks, store_task}
use myreallyoldkernel.Tasks.Ring.{Linked}

-- One turn of a ring with at least two tasks: the lists before and behind the current task `c`, the
-- next task, and the lists before and behind that one.
pub data Turn (c : ℕ) : List ℕ → List ℕ → ℕ → List ℕ → List ℕ → Type 0 where
  onward : {before us : List ℕ} {u : ℕ} → Turn c before (u ∷ us) u (before ++ c ∷ []) us
  around : {bs : List ℕ} {b : ℕ} → Turn c (b ∷ bs) [] b [] (bs ++ c ∷ [])

-- The flags that switchTasks saves: the interrupt flag is cleared.
abbrev pub saved_of : Registers → Registers
saved_of now = record now { eflags = bit_and now.eflags 0xFFFF_FDFF }

-- The ring reads only the pointers to the next task.
pub Linked-same :
    (store store' : Store) (first : ℕ) (ts : List ℕ)
    → ((t : ℕ) → (store' t).next_task ≡ (store t).next_task)
    → Linked store first ts
    → Linked store' first ts
unfolding Linked
Linked-same store store' first [] same l = tt
Linked-same store store' first (t ∷ []) same l = same t ∙ l
Linked-same store store' first (t ∷ u ∷ ts) same l =
    (same t ∙ l.0, Linked-same store store' first (u ∷ ts) same l.1)

pub next_task-saved :
    (store : Store) (c : ℕ) (regs : Registers) (t : ℕ)
    → (store_task store c (record (store c) { saved = regs }) t).next_task ≡ (store t).next_task
unfolding store_task
next_task-saved store c regs t = ground (arith, ap (λ (x : ℕ). (store x).next_task))
