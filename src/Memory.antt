-- ===== src/Memory.antt =====
-- Memory as bytes at addresses, with kmemset and kmemcpy of memory.asm. Paging maps the kernel's
-- low memory to itself, so an address is read as it stands.
pub mod Laws
use myreallyoldkernel.Prelude.{ℕ, zero, suc, ◌+◌, ◌*◌, ◌/◌, ◌%◌, ◌^◌, ◌==◌, if◌then◌else◌}

abbrev pub Memory : Type 0
Memory = ℕ → ℕ

unfoldable pub store8 : Memory → ℕ → ℕ → Memory
store8 m a v b = if b == a then v else m b

-- The next address in a 32-bit register.
abbrev pub next : ℕ → ℕ
next a = (a + 1) % 2 ^ 32

-- The x86 `loop` instruction decrements before it tests, so a count of 0 runs 2 ^ 32 rounds.
abbrev pub loop_rounds : ℕ → ℕ
loop_rounds count = if count == 0 then 2 ^ 32 else count

unfoldable pub set_data : ℕ → Memory → ℕ → ℕ → Memory
set_data zero m dst v = m
set_data (suc n) m dst v = set_data n (store8 m dst v) (next dst) v

unfoldable pub kmemset : Memory → ℕ → ℕ → ℕ → Memory
kmemset m dst v count = set_data (loop_rounds count) m dst (v % 256)

unfoldable pub move_data : ℕ → Memory → ℕ → ℕ → Memory
move_data zero m dst src = m
move_data (suc n) m dst src = move_data n (store8 m dst (m src)) (next dst) (next src)

unfoldable pub kmemcpy : Memory → ℕ → ℕ → ℕ → Memory
kmemcpy m dst src count = move_data (loop_rounds count) m dst src

-- A uint32 in memory, low byte first.
unfoldable pub load32 : Memory → ℕ → ℕ
load32 m a = m a + 256 * m (a + 1) + 65536 * m (a + 2) + 16777216 * m (a + 3)

unfoldable pub store32 : Memory → ℕ → ℕ → Memory
unfolding store8
store32 m a v =
    store8
      (store8 (store8 (store8 m a (v % 256)) (a + 1) (v / 256 % 256)) (a + 2) (v / 65536 % 256))
      (a + 3) (v / 16777216 % 256)
