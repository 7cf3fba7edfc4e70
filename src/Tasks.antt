-- ===== src/Tasks.antt =====
-- The tasks of task.c: a ring of task_t structs, fork, the switch on a timer tick, getpid and
-- mapTaskPage. A struct lives at the address that kmalloc returned for it; `store` is the structs by
-- address. The registers that the assembly lines read are arguments, those they load are answers.
pub mod Ring
pub mod Fork
pub mod Parent
pub mod Turns
pub mod Rounds
pub mod Find
pub mod Tests
use myreallyoldkernel.Mapping.{map_page, clone_page_directory}
use myreallyoldkernel.Paging.{Pages, Heap, kmalloc, ◌+w◌}
use myreallyoldkernel.Prelude.{
  ℕ, zero, suc, ◌+◌, ◌-◌, ◌%◌, ◌^◌, bit_and, ◌&&◌, not, Option, none, some, ◌==◌, if◌then◌else◌,
}

-- The general registers, the stack pointers, the instruction pointer and the flags.
pub record Registers : Type 0 where
  pub esp : ℕ
  pub ebp : ℕ
  pub eip : ℕ
  pub eax : ℕ
  pub ebx : ℕ
  pub ecx : ℕ
  pub edx : ℕ
  pub edi : ℕ
  pub esi : ℕ
  pub eflags : ℕ

-- `task_t`
pub record Task : Type 0 where
  pub saved : Registers
  pub id : ℕ
  pub page_dir : ℕ
  pub next_task : ℕ

-- 13 fields of 4 bytes
abbrev pub task_size : ℕ
task_size = 52

abbrev pub Store : Type 0
Store = ℕ → Task

unfoldable pub store_task : Store → ℕ → Task → Store
store_task store at task address = if address == at then task else store address

-- `page_directory` is the global `pageDirectory`, of the kernel.
pub record Tasks : Type 0 where
  pub heap : Heap
  pub store : Store
  pub first_task : ℕ
  pub current_task : ℕ
  pub pid : ℕ
  pub page_directory : ℕ

-- The fields that the function does not set keep what kmalloc's block held.
unfoldable pub init_tasks : Tasks → Option Tasks
init_tasks s = elim (kmalloc s.heap task_size) [
  | none ↦ none
  | some (task, heap) ↦
      let fields : Task = record (s.store task) {
        page_dir = s.page_directory;
        id = 0;
        next_task = task;
      } in
      some (record s {
        heap = heap;
        store = store_task s.store task fields;
        first_task = task;
        current_task = task;
        pid = 1;
      })
]

-- The while loop of fork: the task before the first one.
unfoldable pub last_task : ℕ → Store → ℕ → ℕ → Option ℕ
last_task zero store first task = none
last_task (suc fuel) store first task =
    let rest = last_task fuel store first (store task).next_task in
    if (store task).next_task == first then some task else rest

-- The part of fork that links `new_task` into the ring.
unfoldable pub link_task : ℕ → Tasks → ℕ → Option Tasks
unfolding last_task store_task
link_task fuel s new_task = elim (last_task fuel s.store s.first_task s.current_task) [
  | none ↦ none
  | some task ↦ some (record s {
    store = store_task s.store task (record (s.store task) { next_task = new_task });
  })
]

-- The part of fork before readEip: the new task at the end of the ring.
unfoldable pub new_task : ℕ → Tasks → Option (ℕ × Tasks)
unfolding store_task link_task
new_task fuel s = elim (kmalloc s.heap task_size) [
  | none ↦ none
  | some (task, heap) ↦
      elim (clone_page_directory heap.pages s.page_directory (s.store s.current_task).page_dir) [
        | none ↦ none
        | some (dir, pages) ↦
            let fields : Task = record (s.store task) {
              id = s.pid;
              next_task = s.first_task;
              page_dir = dir;
            } in
            let made : Tasks = record s {
              heap = record heap { pages = pages };
              store = store_task s.store task fields;
              pid = s.pid +w 1;
            } in
            elim (link_task fuel made task) [ none ↦ none | some s' ↦ some (task, s') ]
      ]
]

-- The part behind readEip, which a task runs when fork calls it and once more when a switch first
-- jumps to the saved instruction pointer. The flags of the new task are not set.
unfoldable pub after_read_eip : Tasks → ℕ → Registers → ℕ × Tasks
unfolding store_task
after_read_eip s task now =
    let regs : Registers = record now { eflags = (s.store task).saved.eflags } in
    let kept : Tasks = record s {
      store = store_task s.store task (record (s.store task) { saved = regs });
    } in
    if (s.store s.current_task).id == (s.pid + 2 ^ 32 - 1) % 2 ^ 32
    then (0, s)
    else ((s.store task).id, kept)

unfoldable pub fork : ℕ → Tasks → Registers → Option (ℕ × Tasks)
fork fuel s now = elim (new_task fuel s) [
  | none ↦ none
  | some (task, s') ↦ some (after_read_eip s' task now)
]

-- The registers that a switch loads. The saved flags are not among them: the flags are the handler's, with
-- the interrupt flag set by sti.
pub record Resumed : Type 0 where
  pub esp : ℕ
  pub ebp : ℕ
  pub eip : ℕ
  pub eax : ℕ
  pub ebx : ℕ
  pub ecx : ℕ
  pub edx : ℕ
  pub edi : ℕ
  pub esi : ℕ
  pub interrupt_flag : ℕ

abbrev pub resumed_of : Registers → Resumed
resumed_of saved = record {
  esp = saved.esp;
  ebp = saved.ebp;
  eip = saved.eip;
  eax = saved.eax;
  ebx = saved.ebx;
  ecx = saved.ecx;
  edx = saved.edx;
  edi = saved.edi;
  esi = saved.esi;
  interrupt_flag = 1;
}

-- What the processor holds after a switch: the page directory and the registers, as far as the
-- compiler's own use of registers between the asm statements leaves them.
pub data Switch : Type 0 where
  returns : Switch
  jumps : ℕ → Resumed → Switch

-- The interrupt flag is cleared in the saved flags, which nothing loads again.
unfoldable pub switch_tasks : Tasks → Registers → Switch × Tasks
unfolding store_task
switch_tasks s now =
    let here = s.store s.current_task in
    let regs : Registers = record now { eflags = bit_and now.eflags 0xFFFF_FDFF } in
    let store = store_task s.store s.current_task (record here { saved = regs }) in
    let next = (store s.current_task).next_task in
    if (s.store s.first_task).next_task == s.first_task then (returns, s) else (
      jumps (store next).page_dir (resumed_of (store next).saved),
      record s { store = store; current_task = next },
    )

unfoldable pub getpid : Tasks → ℕ
getpid s = (s.store s.current_task).id

-- The while loop of mapTaskPage.
unfoldable pub find_task : ℕ → Store → ℕ → ℕ → ℕ → Option ℕ
find_task zero store first id task = none
find_task (suc fuel) store first id task =
    let rest = find_task fuel store first id (store task).next_task in
    if not ((store task).id == id) && not ((store task).next_task == first) then rest else some task

-- The answer of mapTaskPage after mapPage.
abbrev pub mapped : Tasks → Option Pages → Option (ℕ × Tasks)
mapped s none = none
mapped s (some pages) = some (0, record s { heap = record s.heap { pages = pages } })

unfoldable pub map_task_page : ℕ → Tasks → ℕ → ℕ → ℕ → Option (ℕ × Tasks)
unfolding find_task
map_task_page fuel s id physical virtual =
    elim (find_task fuel s.store s.first_task id s.first_task) [
      | none ↦ none
      | some task ↦
          let done =
            mapped s (map_page s.heap.pages (s.store task).page_dir physical virtual 0 1) in
          if (s.store task).id == id then done else some (2 ^ 32 - 1, s)
    ]
