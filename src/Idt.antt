-- ===== src/Idt.antt =====
-- The interrupt descriptor table of interrupts.c. The handlers are assembly routines: their
-- addresses are the parameter `Handlers`.
pub mod Vectors
pub mod Report
pub mod Tests
use myreallyoldkernel.Prelude.{ℕ, zero, suc, ◌+◌, ◌/◌, ◌%◌, ◌^◌, bit_and, List, [], ◌∷◌, set}

-- `idt_entry_t`
pub record IdtEntry : Type 0 where
  pub base_low : ℕ
  pub sel : ℕ
  pub always0 : ℕ
  pub flags : ℕ
  pub base_high : ℕ

pub record Handlers : Type 0 where
  pub isr : ℕ → ℕ
  pub irq : ℕ
  pub irq0 : ℕ
  pub irq1 : ℕ
  pub irq15 : ℕ
  pub sys : ℕ

-- `num` is a uint8.
unfoldable pub idt_set_gate : List IdtEntry → ℕ → ℕ → ℕ → ℕ → List IdtEntry
idt_set_gate idt num base sel flags = set idt (num % 256) (record {
  base_low = bit_and base 0xFFFF;
  sel = sel;
  always0 = 0;
  flags = flags;
  base_high = bit_and (base / 2 ^ 16) 0xFFFF;
})

-- A kernel interrupt gate.
unfoldable pub gate : List IdtEntry → ℕ → ℕ → List IdtEntry
unfolding idt_set_gate
gate idt num base = idt_set_gate idt num base 0x08 0x8E

-- `count` gates from vector `i` on, each with the handler that `base` gives it.
unfoldable pub gates_from : ℕ → ℕ → (ℕ → ℕ) → List IdtEntry → List IdtEntry
unfolding gate
gates_from zero i base idt = idt
gates_from (suc count) i base idt = gates_from count (i + 1) base (gate idt i (base i))

-- The first nineteen calls name isr0 to isr18 in order; the loop gives the others isr0.
unfoldable pub init_idt : Handlers → List IdtEntry → List IdtEntry
init_idt h idt =
    let exceptions = gates_from 19 0 h.isr idt in
    let all = gates_from 237 19 (λ _. h.isr 0) exceptions in gate all 0xF0 h.sys

-- The writes of remapPIC, port and byte, in order.
abbrev pub remap_pic : List (ℕ × ℕ)
remap_pic =
    (0x20, 0x11)
    ∷ (0xA0, 0x11)
    ∷ (0x21, 0x20)
    ∷ (0xA1, 0x28)
    ∷ (0x21, 0x04)
    ∷ (0xA1, 0x02)
    ∷ (0x21, 0x01)
    ∷ (0xA1, 0x01)
    ∷ (0x21, 0x00)
    ∷ (0xA1, 0x00)
    ∷ []

-- The table after setupIRQs, and its port writes.
unfoldable pub setup_irqs : Handlers → List IdtEntry → List IdtEntry × List (ℕ × ℕ)
setup_irqs h idt =
    let all = gates_from 16 32 (λ _. h.irq) idt in
    (gate (gate (gate (gate all 32 h.irq0) 33 h.irq1) 46 h.irq15) 47 h.irq15, remap_pic)
