-- ===== src/Tasks/Tests.antt =====
-- A ring of one task with a second one linked into it, and a switch in a ring of two.
use myreallyoldkernel.Mapping.Tests.{spare}
use myreallyoldkernel.Paging.{Heap}
use myreallyoldkernel.Paging.Tests.{heap}
use myreallyoldkernel.Prelude.{
  ◌≡◌, refl, arith, some, [], ◌∷◌, ◌==◌, if◌then◌else◌, ℕ, get_elem?, ◌⊎◌, ◌^◌, ◌-◌,
}
use myreallyoldkernel.Tasks.{Registers, Tasks, mapped, map_task_page}
use myreallyoldkernel.Mapping.{map_page}
use myreallyoldkernel.Tasks.Find.{NoneHas, map_task_page-Found}
use myreallyoldkernel.Tasks.Ring.{Linked, Fresh, Distinct, IsRing}

abbrev blank : Registers
blank = record {
  esp = 0;
  ebp = 0;
  eip = 0;
  eax = 0;
  ebx = 0;
  ecx = 0;
  edx = 0;
  edi = 0;
  esi = 0;
  eflags = 0;
}

-- Every struct points to the task at 0x1000.
abbrev alone : Tasks
alone = record {
  heap = heap;
  store = λ _. record { saved = blank; id = 0; page_dir = 0; next_task = 0x1000 };
  first_task = 0x1000;
  current_task = 0x1000;
  pid = 1;
  page_directory = 0;
}

alone-IsRing : IsRing alone [] []
unfolding Linked Fresh Distinct
alone-IsRing = record { first = refl; linked = refl; distinct = (tt, tt) }

-- Two tasks that point to each other.
abbrev pair : Tasks
pair = record alone {
  store = λ t. record {
    saved = blank;
    id = 0;
    page_dir = 0;
    next_task = if t == 0x1000 then 0x1034 else 0x1000;
  };
}

pair-IsRing : IsRing pair [] (0x1034 ∷ [])
unfolding Linked Fresh Distinct
pair-IsRing = record {
  first = refl;
  linked = (refl, refl);
  distinct = ((λ e. absurd (omega arith), tt), (tt, tt));
}

map_task_page-Found_example :
    (NoneHas pair.store 7 (0x1000 ∷ 0x1034 ∷ [])
      × (map_task_page 2 pair 7 0x9000 0x7000 ≡ some (2 ^ 32 - 1, pair)))
    ⊎ ((u : ℕ) × (i : ℕ) × (get_elem? (0x1000 ∷ 0x1034 ∷ []) i ≡ some u)
        × ((pair.store u).id ≡ 7)
        × (map_task_page 2 pair 7 0x9000 0x7000
            ≡ mapped pair (map_page heap.pages (pair.store u).page_dir 0x9000 0x7000 0 1)))
map_task_page-Found_example =
    map_task_page-Found 2 pair [] (0x1034 ∷ []) 7 0x9000 0x7000 pair-IsRing (omega arith)

-- The heap goes on above the pages that a clone takes.
abbrev spare_heap : Heap
spare_heap = record {
  pages = spare;
  next_address = 0x80_0000;
  end_of_page = 0x80_1000;
  num_heap_pages = 1;
}

abbrev parent : Tasks
parent = record alone { heap = spare_heap }
