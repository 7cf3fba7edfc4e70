-- ===== src/Idt/Tests.antt =====
-- The vector theorem at the system call's vector.
use myreallyoldkernel.Idt.{IdtEntry, Handlers, init_idt, setup_irqs}
use myreallyoldkernel.Idt.Vectors.{IsKernelGate, setup_irqs-vectors}
use myreallyoldkernel.Prelude.{◌+◌, arith, get_or, replicate, length-replicate}

abbrev handlers : Handlers
handlers = record {
  isr = λ n. 0x100000 + n;
  irq = 0x200000;
  irq0 = 0x200010;
  irq1 = 0x200020;
  irq15 = 0x200030;
  sys = 0x300000;
}

abbrev blank : IdtEntry
blank = record { base_low = 0; sel = 0; always0 = 0; flags = 0; base_high = 0 }

setup_irqs-vectors_example :
    IsKernelGate
      (get_or (setup_irqs handlers (init_idt handlers (replicate 256 blank))).0 0xF0 blank)
      0x300000
setup_irqs-vectors_example =
    setup_irqs-vectors handlers (replicate 256 blank) blank 0xF0 (length-replicate 256 blank)
      (omega arith)
