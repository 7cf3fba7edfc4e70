-- ===== src/Tasks/Rounds.antt =====
-- Many switches: every task gets its turn, and then its registers back.
use myreallyoldkernel.Prelude.{ℕ, ◌≡◌, ◌≢◌, List, [], ◌∷◌, ◌++◌}
use myreallyoldkernel.Tasks.{Registers, Tasks, Switch, returns, resumed_of, jumps, switch_tasks}
use myreallyoldkernel.Tasks.Ring.{IsRing}
use myreallyoldkernel.Tasks.Turns.{saved_of}

-- One switch for each timer interrupt, with the registers that it finds: how the last one ends.
unfoldable pub switches : Tasks → List Registers → Switch × Tasks
switches s [] = (returns, s)
switches s (now ∷ []) = switch_tasks s now
switches s (now ∷ now' ∷ later) = switches (switch_tasks s now).1 (now' ∷ later)

-- The ring, with `queue` the tasks behind the current one in the order of their turns.
pub record Queued (s : Tasks) (queue : List ℕ) : Type 0 where
  pub before : List ℕ
  pub after : List ℕ
  pub is_ring : IsRing s before after
  pub order : after ++ before ≡ queue

-- What one switch does to the queue and to the structs.
record Switched (s s' : Tasks) (now : Registers) (u : ℕ) (queue : List ℕ) : Type 0 where
  result : switch_tasks s now ≡ (jumps (s.store u).page_dir (resumed_of (s.store u).saved), s')
  queued : Queued s' (queue ++ s.current_task ∷ [])
  current : s'.current_task ≡ u
  saves : s'.store s.current_task ≡ record (s.store s.current_task) { saved = saved_of now }
  others : (t : ℕ) → t ≢ s.current_task → s'.store t ≡ s.store t
