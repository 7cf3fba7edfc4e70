-- ===== src/Elf/Tests.antt =====
-- An image of two pages and a bit, and the padding between two segments.
use myreallyoldkernel.Elf.{ProgramHeader, map_image, user_writes, run_writes}
use myreallyoldkernel.Elf.Image.{Reaches, map_from, map_image-Reaches, Padded, user_writes-Padded}
use myreallyoldkernel.Memory.{Memory}
use myreallyoldkernel.Paging.Tests.{heap}
use myreallyoldkernel.Prelude.{ℕ, ◌+◌, ◌<◌, ◌≡◌, ◌↔◌, refl, arith}
use myreallyoldkernel.Tasks.{Tasks}

abbrev one_task : Tasks
one_task = record {
  heap = heap;
  store = λ _. record {
    saved = record {
      esp = 0;
      ebp = 0;
      eip = 0;
      eax = 0;
      ebx = 0;
      ecx = 0;
      edx = 0;
      edi = 0;
      esi = 0;
      eflags = 0;
    };
    id = 0;
    page_dir = 0x2000;
    next_task = 0x1000;
  };
  first_task = 0x1000;
  current_task = 0x1000;
  pid = 1;
  page_directory = 0x2000;
}

map_image-Reaches_example :
    (n : ℕ) × (map_image 1 0x40_2010 one_task ≡ map_from 1 n 0x0040_0000 one_task)
    × ((i : ℕ) → (i < n) ↔ Reaches 0x40_2010 i)
map_image-Reaches_example = map_image-Reaches 1 0x40_2010 one_task (omega arith) (omega arith)

-- The text ends at 0x00400123, the data starts at 0x00401080.
abbrev segment : ℕ → ℕ → ProgramHeader
segment at size = record {
  p_type = 1;
  p_offset = 0;
  p_vaddr = at;
  p_paddr = at;
  p_filesz = size;
  p_memsz = size;
  p_flags = 5;
  p_align = 0x1000;
}

abbrev file_bytes : ℕ → ℕ → ℕ → Memory → Memory
file_bytes fd count address m = λ a. fd + a

user_writes-Padded_example :
    Padded
      (λ a. 1 + a)
      (run_writes file_bytes
        (user_writes 1 (segment 0x40_0000 0x123) (segment 0x40_1080 0x40))
        (λ _. 0))
      0x40_0123
      0x40_1000
      0x40_1080
user_writes-Padded_example =
    user_writes-Padded file_bytes (λ _. 0) 1 (segment 0x40_0000 0x123) (segment 0x40_1080 0x40)
      0x40_0123 0x40_1000 refl refl (omega arith) (omega arith) (omega arith)
