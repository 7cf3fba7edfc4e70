-- ===== src/Syscalls.antt =====
-- The dispatch of system calls, syscl of syscalls.c, over the tasks and the open files. The
-- trace that it prints of each call is left out.
use myreallyoldkernel.Prelude.{ℕ, ◌-◌, ◌^◌, Option, none, some, [], ◌==◌, if◌then◌else◌}
use myreallyoldkernel.Strings.{c_string}
use myreallyoldkernel.Tasks.{Tasks, getpid, map_task_page}
use myreallyoldkernel.Vfs.{Text, Vfs, open_file, read}

pub record Kernel (S : Type 0) : Type 0 where
  pub tasks : Tasks
  pub vfs : Vfs S

-- What a call needs of the machine: the value of `end`, the address of the function allocPage, the
-- memory that strings are read from, the bytes behind open's copy of a name, and a bound of the
-- walk over the tasks and of a string's length.
pub record Machine : Type 0 where
  pub end : ℕ
  pub alloc_page_address : ℕ
  pub behind : Text
  pub fuel : ℕ

abbrev minus_one : ℕ
minus_one = 2 ^ 32 - 1

module _ {S : Type 0} where
  -- sbrk hands mapTaskPage the address of allocPage, not a page.
  unfoldable pub sbrk : Machine → Kernel S → ℕ → Option (ℕ × Kernel S)
  sbrk machine k inc =
      elim (map_task_page machine.fuel k.tasks (getpid k.tasks) machine.alloc_page_address inc) [
        | none ↦ none
        | some (_, tasks) ↦ some (0, record k { tasks = tasks })
      ]

  -- The answer of read is dropped.
  unfoldable pub read_call : Kernel S → ℕ → ℕ → ℕ → Option (ℕ × Kernel S)
  read_call k file ptr len = elim (read k.vfs file len ptr) [
    | none ↦ none
    | some (_, vfs) ↦ some (0, record k { vfs = vfs })
  ]

  unfoldable pub open_call : Machine → Kernel S → ℕ → Option (ℕ × Kernel S)
  unfolding c_string
  open_call machine k name =
      elim (open_file k.vfs machine.behind (c_string machine.fuel k.tasks.heap.pages.memory name)) [
        | none ↦ none
        | some (fd, vfs) ↦ some (fd, record k { vfs = vfs })
      ]

  unfoldable pub syscl : Machine → Kernel S → ℕ → ℕ → ℕ → ℕ → Option (ℕ × Kernel S)
  unfolding sbrk read_call open_call
  syscl machine k call_num arg1 arg2 arg3 =
      if call_num == 1
      then some (arg3, k)
      else if call_num == 2
      then some (minus_one, k)
      else if call_num == 3
      then some (minus_one, k)
      else if call_num == 4
      then some (minus_one, k)
      else if call_num == 5
      then some (0, k)
      else if call_num == 6
      then sbrk machine k arg1
      else if call_num == 7
      then read_call k arg1 arg2 arg3
      else if call_num == 8
      then open_call machine k arg1
      else if call_num == 9
      then some (0, k)
      else if call_num == 10
      then some (minus_one, k)
      else if call_num == 11
      then some (minus_one, k)
      else if call_num == 12
      then some (1, k)
      else if call_num == 13
      then some (getpid k.tasks, k)
      else if call_num == 14
      then some (0, k)
      else if call_num == 15
      then some (minus_one, k)
      else if call_num == 16
      then some (minus_one, k)
      else if call_num == 17
      then some (minus_one, k)
      else if call_num == 18
      then some (minus_one, k)
      else if call_num == 19
      then some (machine.end, k)
      else some (0, k)

  -- What a call prints behind its trace: write prints the string at its address up to the zero byte,
  -- whatever length it is given.
  unfoldable pub syscl_output : Machine → Kernel S → ℕ → ℕ → Text
  unfolding c_string
  syscl_output machine k call_num arg2 =
      if call_num == 1 then c_string machine.fuel k.tasks.heap.pages.memory arg2 else []
