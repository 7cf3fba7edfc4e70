-- ===== src/Tasks/Parent.antt =====
-- The whole of fork, as the parent runs it.
use myreallyoldkernel.Tasks.{Registers, Task, Tasks}

-- The registers that fork saves for the new task: the flags are those that its struct holds.
abbrev saved_for : Task → Registers → Registers
saved_for task now = record now { eflags = task.saved.eflags }
