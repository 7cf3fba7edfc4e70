-- ===== src/Idt/Vectors.antt =====
-- Which handler each vector reaches once initIdt and setupIRQs have run.
use mathlib.Core.Path.{subst}
use mathlib.Core.Bool.{false≢true}
use myreallyoldkernel.Bits.Digits.{bit_and-ones}
use myreallyoldkernel.Idt.{IdtEntry, Handlers, gate, gates_from, init_idt, setup_irqs}
use myreallyoldkernel.Prelude.{
  ℕ, zero, suc, ◌+◌, ◌*◌, ◌/◌, ◌%◌, ◌^◌, ◌≤◌, ◌<◌, ◌≡◌, ◌≢◌, inl, inr, ap, ◌∙◌, refl, arith, Bool,
  true, false, ◌&&◌, ◌||◌, List, get_or, length, length-set, get_or-set_self, get_or-set_ne, ltb,
  leb, ◌==◌, if◌then◌else◌, Bool-cases, ==_refl,
}

-- The address that the processor jumps to.
abbrev pub handler : IdtEntry → ℕ
handler e = e.base_low + 2 ^ 16 * e.base_high

-- A present 32-bit interrupt gate of ring 0 into the kernel's code segment.
pub record IsKernelGate (e : IdtEntry) (base : ℕ) : Type 0 where
  pub target : handler e ≡ base % 2 ^ 32
  pub selector : e.sel ≡ 0x08
  pub reserved : e.always0 ≡ 0
  pub kind : e.flags ≡ 0x8E

-- Every vector reaches what `base` says.
abbrev pub Reaches : List IdtEntry → IdtEntry → (ℕ → Bool) → (ℕ → ℕ) → Type 0
Reaches idt default known base =
    (v : ℕ) → v < 256 → known v ≡ true → IsKernelGate (get_or idt v default) (base v)

length-gate : (idt : List IdtEntry) (num base : ℕ) → length (gate idt num base) ≡ length idt
unfolding gate
length-gate idt num base = length-set idt (num % 256) _

gate_self :
    (idt : List IdtEntry) (num base : ℕ) (default : IdtEntry)
    → length idt ≡ 256
    → num < 256
    → IsKernelGate (get_or (gate idt num base) num default) base
unfolding gate
gate_self idt num base default len h =
    let e : num % 256 ≡ num = omega arith in
    rw (e, get_or-set_self idt num _ default (omega arith))
      (record {
        target = omega (arith, bit_and-ones 16 base, bit_and-ones 16 (base / 2 ^ 16));
        selector = refl;
        reserved = refl;
        kind = refl;
      })

gate_ne :
    (idt : List IdtEntry) (num base v : ℕ) (default : IdtEntry)
    → num < 256
    → num ≢ v
    → get_or (gate idt num base) v default ≡ get_or idt v default
unfolding gate
gate_ne idt num base v default h ne =
    let e : num % 256 ≡ num = omega arith in rw e (get_or-set_ne idt num v _ default ne)

module _ (default : IdtEntry) where
  gate-Reaches :
      (idt : List IdtEntry) (num b : ℕ) (known : ℕ → Bool) (base : ℕ → ℕ)
      → length idt ≡ 256
      → num < 256
      → Reaches idt default known base
      → Reaches
          (gate idt num b)
          default
          (λ v. v == num || known v)
          (λ v. if v == num then b else base v)
  gate-Reaches idt num b known base len h r v hv k = elim (Bool-cases (v == num)) [
    | inl e ↦
        let same : v ≡ num = ground arith in
        rw (same, ==_refl num) (gate_self idt num b default len h)
    | inr n ↦
        let known' : known v ≡ true = ground arith in
        rw (n, gate_ne idt num b v default h (ground arith)) (r v hv known')
  ]

  gates_from-Reaches :
      (count i : ℕ) (h : ℕ → ℕ) (idt : List IdtEntry) (known : ℕ → Bool) (base : ℕ → ℕ)
      → length idt ≡ 256
      → i + count ≤ 256
      → Reaches idt default known base
      → Reaches
          (gates_from count i h idt)
          default
          (λ v. (leb i v && ltb v (i + count)) || known v)
          (λ v. if leb i v && ltb v (i + count) then h v else base v)
  unfolding gates_from
  gates_from-Reaches zero i h idt known base len fits r v hv k =
      let out : (leb i v && ltb v (i + 0)) ≡ false = ground arith in rw out (r v hv (ground arith))
  gates_from-Reaches (suc count) i h idt known base len fits r v hv k =
      let step =
        gates_from-Reaches count (i + 1) h (gate idt i (h i)) (λ v. v == i || known v)
          (λ v. if v == i then h i else base v) (omega (arith, length-gate idt i (h i)))
          (omega arith) (gate-Reaches idt i (h i) known base len (omega arith) r) v hv
          (ground arith) in
      let same : (if leb (i + 1) v && ltb v (i + 1 + count)
            then h v
            else if v == i
            then h i
            else base v)
          ≡ (if leb i v && ltb v (i + suc count) then h v else base v) =
        ground (arith, λ (e : v ≡ i). ap h e) in
      rw same at step

length-gates_from :
    (count i : ℕ) (h : ℕ → ℕ) (idt : List IdtEntry) → length (gates_from count i h idt) ≡ length idt
unfolding gates_from
length-gates_from zero i h idt = refl
length-gates_from (suc count) i h idt =
    length-gates_from count (i + 1) h (gate idt i (h i)) ∙ length-gate idt i (h i)

-- The handler of each vector: exceptions, the remapped interrupt lines, the system call.
abbrev pub vector_handler : Handlers → ℕ → ℕ
vector_handler h v =
    if v == 0xF0
    then h.sys
    else if v == 32
    then h.irq0
    else if v == 33
    then h.irq1
    else if v == 46 || v == 47
    then h.irq15
    else if leb 32 v && ltb v 48
    then h.irq
    else if ltb v 19
    then h.isr v
    else h.isr 0

-- The table after initIdt.
abbrev idt_handler : Handlers → ℕ → ℕ
idt_handler h v =
    if v == 0xF0
    then h.sys
    else if leb 19 v && ltb v (19 + 237)
    then h.isr 0
    else if leb 0 v && ltb v (0 + 19)
    then h.isr v
    else h.isr 0

abbrev all_known : ℕ → Bool
all_known v = true

init_idt-Reaches :
    (h : Handlers) (idt : List IdtEntry) (default : IdtEntry)
    → length idt ≡ 256
    → (length (init_idt h idt) ≡ 256) × Reaches (init_idt h idt) default all_known (idt_handler h)
unfolding init_idt
init_idt-Reaches h idt default len =
    let first = gates_from 19 0 h.isr idt in
    let second = gates_from 237 19 (λ _. h.isr 0) first in
    let len1 : length first ≡ 256 = length-gates_from 19 0 h.isr idt ∙ len in
    let len2 : length second ≡ 256 = length-gates_from 237 19 (λ _. h.isr 0) first ∙ len1 in
    let nothing : Reaches idt default (λ _. false) (λ _. h.isr 0) =
      λ v hv k. absurd (false≢true k) in
    let r1 =
      gates_from-Reaches default 19 0 h.isr idt (λ _. false) (λ _. h.isr 0) len (omega arith)
        nothing in
    let r2 = gates_from-Reaches default 237 19 (λ _. h.isr 0) first _ _ len1 (omega arith) r1 in
    let r3 = gate-Reaches default second 0xF0 h.sys _ _ len2 (omega arith) r2 in
    (length-gate second 0xF0 h.sys ∙ len2, λ v hv k. r3 v hv (ground arith))

-- On a table of 256 entries, after initIdt and setupIRQs each of the 256 vectors holds a kernel
-- interrupt gate to its own handler: exceptions 0 to 18 to their routines, 32 and 33 to timer and
-- keyboard, 46 and 47 to the drives, the rest of 32 to 47 to the common routine, 0xF0 to the system
-- call, and all others to the routine of vector 0.
pub setup_irqs-vectors :
    (h : Handlers) (idt : List IdtEntry) (default : IdtEntry) (v : ℕ)
    → length idt ≡ 256
    → v < 256
    → IsKernelGate (get_or (setup_irqs h (init_idt h idt)).0 v default) (vector_handler h v)
unfolding setup_irqs
setup_irqs-vectors h idt default v len hv =
    let start = init_idt h idt in
    let (len0, r0) = init_idt-Reaches h idt default len in
    let t1 = gates_from 16 32 (λ _. h.irq) start in
    let t2 = gate t1 32 h.irq0 in
    let t3 = gate t2 33 h.irq1 in
    let t4 = gate t3 46 h.irq15 in
    let len1 : length t1 ≡ 256 = length-gates_from 16 32 (λ _. h.irq) start ∙ len0 in
    let len2 : length t2 ≡ 256 = length-gate t1 32 h.irq0 ∙ len1 in
    let len3 : length t3 ≡ 256 = length-gate t2 33 h.irq1 ∙ len2 in
    let len4 : length t4 ≡ 256 = length-gate t3 46 h.irq15 ∙ len3 in
    let r1 = gates_from-Reaches default 16 32 (λ _. h.irq) start _ _ len0 (omega arith) r0 in
    let r2 = gate-Reaches default t1 32 h.irq0 _ _ len1 (omega arith) r1 in
    let r3 = gate-Reaches default t2 33 h.irq1 _ _ len2 (omega arith) r2 in
    let r4 = gate-Reaches default t3 46 h.irq15 _ _ len3 (omega arith) r3 in
    let r5 = gate-Reaches default t4 47 h.irq15 _ _ len4 (omega arith) r4 in
    let same : (if v == 47
          then h.irq15
          else if v == 46
          then h.irq15
          else if v == 33
          then h.irq1
          else if v == 32
          then h.irq0
          else if leb 32 v && ltb v (32 + 16)
          then h.irq
          else idt_handler h v)
        ≡ vector_handler h v =
      ground arith in
    subst (λ b. IsKernelGate (get_or (gate t4 47 h.irq15) v default) b) same
      (r5 v hv (ground arith))
