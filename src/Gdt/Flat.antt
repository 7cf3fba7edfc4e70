-- ===== src/Gdt/Flat.antt =====
-- The table that initGDT builds: flat code and data segments and the task state segment.
use myreallyoldkernel.Gdt.{GdtEntry, gdt_set_gate, tss_size, GdtState, init_gdt}
use myreallyoldkernel.Gdt.Fields.{
  segment_base, segment_limit, segment_flags, Describes, gdt_set_gate-Describes,
}
use myreallyoldkernel.Paging.{Heap, kmalloc}
use myreallyoldkernel.Paging.Kmalloc.{IsHeap, kmalloc-Cut}
use myreallyoldkernel.Paging.Search.{IsFirstFree}
use myreallyoldkernel.Prelude.{
  ℕ, ◌+◌, ◌-◌, ◌*◌, ◌^◌, ◌<◌, ◌≡◌, refl, arith, some, List, get_or, length, length-set,
}

-- The segment starts at 0 and spans 4 GiB in pages of 4096 bytes; `access` is its access byte.
pub record IsFlat (e : GdtEntry) (access : ℕ) : Type 0 where
  pub start : segment_base e ≡ 0
  pub span : (segment_limit e + 1) * 4096 ≡ 2 ^ 32
  pub access_field : e.access ≡ access
  pub flags_field : segment_flags e ≡ 0xC

pub record IsKernelGdt (g : GdtState) (default : GdtEntry) (address : ℕ) : Type 0 where
  pub code : IsFlat (get_or g.entries 1 default) 0x9A
  pub stack : IsFlat (get_or g.entries 2 default) 0x92
  pub task : Describes (get_or g.entries 3 default) address (tss_size - 1) 0x89 0x40
  pub tss_at : g.tss.address ≡ address
  pub kernel_stack : g.tss.ss0 ≡ 0x10

length-gdt_set_gate :
    (entries : List GdtEntry) (num base limit access gran : ℕ)
    → length (gdt_set_gate entries num base limit access gran) ≡ length entries
unfolding gdt_set_gate
length-gdt_set_gate entries num base limit access gran = length-set entries num _

IsFlat-of_Describes :
    {e : GdtEntry} {access : ℕ} → Describes e 0 0xFFFF_FFFF access 0xCF → IsFlat e access
IsFlat-of_Describes d = record {
  start = d.base_field;
  span = omega (arith, d.limit_field);
  access_field = d.access_field;
  flags_field = d.flags_field;
}

-- The four gates, whatever the address of the task state segment.
module _ (entries : List GdtEntry) (address : ℕ) (default : GdtEntry) where
  abbrev null_gate : List GdtEntry
  null_gate = gdt_set_gate entries 0 0 0 0 0

  abbrev code_gate : List GdtEntry
  code_gate = gdt_set_gate null_gate 1 0 0xFFFF_FFFF 0x9A 0xCF

  abbrev flat_gates : List GdtEntry
  flat_gates = gdt_set_gate code_gate 2 0 0xFFFF_FFFF 0x92 0xCF

  abbrev all_gates : List GdtEntry
  all_gates = gdt_set_gate flat_gates 3 address (tss_size - 1) 0x89 0x40

  four_gates :
      length entries ≡ 4
      → address < 2 ^ 32
      → IsFlat (get_or all_gates 1 default) 0x9A
        × IsFlat (get_or all_gates 2 default) 0x92
        × Describes (get_or all_gates 3 default) address (tss_size - 1) 0x89 0x40
  four_gates len low =
      let l1 = length-gdt_set_gate entries 0 0 0 0 0 in
      let l2 = length-gdt_set_gate null_gate 1 0 0xFFFF_FFFF 0x9A 0xCF in
      let l3 = length-gdt_set_gate code_gate 2 0 0xFFFF_FFFF 0x92 0xCF in
      let (code, _) =
        gdt_set_gate-Describes null_gate 1 0 0xFFFF_FFFF 0x9A 0xCF default (omega arith)
          (omega arith) (omega arith) in
      let (flat, keep2) =
        gdt_set_gate-Describes code_gate 2 0 0xFFFF_FFFF 0x92 0xCF default (omega arith)
          (omega arith) (omega arith) in
      let (task, keep3) =
        gdt_set_gate-Describes flat_gates 3 address (tss_size - 1) 0x89 0x40 default (omega arith)
          low (omega arith) in
      (
        rw (keep3 1 (omega arith), keep2 1 (omega arith)) (IsFlat-of_Describes code),
        rw (keep3 2 (omega arith)) (IsFlat-of_Describes flat),
        task,
      )

-- On a valid heap with a free page and a table of four entries, initGDT succeeds: selectors 0x08
-- and 0x10 are flat segments of 4 GiB for code and data, selector 0x18 is a task state segment of
-- 104 bytes at the block that kmalloc returned.
pub init_gdt-IsKernelGdt :
    (entries : List GdtEntry) (h : Heap) (base p esp : ℕ) (default : GdtEntry)
    → length entries ≡ 4
    → IsHeap h base
    → IsFirstFree h.pages.bitmap 0 p
    → (g : GdtState) × (r : ℕ × Heap) × (init_gdt entries h esp ≡ some g)
      × (kmalloc h tss_size ≡ some r)
      × IsKernelGdt g default r.0
unfolding init_gdt
init_gdt-IsKernelGdt entries h base p esp default len v first =
    let (r, base', got, cut) = kmalloc-Cut h base p tss_size v first (omega arith) in
    let low : r.0 < 2 ^ 32 =
      omega (arith, cut.next, cut.heap.high, cut.heap.end, cut.heap.in_map, cut.heap.words) in
    let (code, flat, task) = four_gates entries r.0 default len low in
    (
      record {
        entries = all_gates entries r.0 default;
        limit = 31;
        tss = record { address = r.0; iopb = tss_size; ss0 = 0x10; esp0 = esp };
        heap = r.1;
      },
      r,
      rw (got, init_gdt) refl,
      got,
      record { code = code; stack = flat; task = task; tss_at = refl; kernel_stack = refl },
    )
