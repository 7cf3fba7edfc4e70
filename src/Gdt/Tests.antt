-- ===== src/Gdt/Tests.antt =====
-- The theorems of the descriptor table at small inputs.
use myreallyoldkernel.Gdt.{GdtEntry, tss_size, GdtState, init_gdt}
use myreallyoldkernel.Gdt.Flat.{IsKernelGdt, init_gdt-IsKernelGdt}
use myreallyoldkernel.Paging.{Heap, kmalloc}
use myreallyoldkernel.Paging.Tests.{heap, heap-IsHeap, heap-IsFirstFree}
use myreallyoldkernel.Prelude.{ℕ, ◌≡◌, refl, some, List, [], ◌∷◌}

abbrev blank : GdtEntry
blank = record {
  limit_low = 0;
  base_low = 0;
  base_middle = 0;
  access = 0;
  limit_high_and_flags = 0;
  base_high = 0;
}

abbrev table : List GdtEntry
table = blank ∷ blank ∷ blank ∷ blank ∷ []

init_gdt-IsKernelGdt_example :
    (g : GdtState) × (r : ℕ × Heap) × (init_gdt table heap 0x9000 ≡ some g)
    × (kmalloc heap tss_size ≡ some r)
    × IsKernelGdt g blank r.0
init_gdt-IsKernelGdt_example =
    init_gdt-IsKernelGdt table heap 1 2 0x9000 blank refl heap-IsHeap heap-IsFirstFree
