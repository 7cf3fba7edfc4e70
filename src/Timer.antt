-- ===== src/Timer.antt =====
-- The timer of timer.c: the tick counter, the divisor that initTimer programs, and sleep.
pub mod Sleep
pub mod Tests
use myreallyoldkernel.Prelude.{
  ℕ, zero, suc, ◌+◌, ◌-◌, ◌/◌, ◌%◌, ◌^◌, Bool, true, false, bit_and, Option, none, some, List, [],
  ◌∷◌, ltb,
}

-- `tick++` of timerTick; the call of switchTasks there is a comment.
unfoldable pub timer_tick : ℕ → ℕ
timer_tick tick = (tick + 1) % 2 ^ 32

-- The counter after `n` interrupts.
unfoldable pub ticks : ℕ → ℕ → ℕ
unfolding timer_tick
ticks zero tick = tick
ticks (suc n) tick = ticks n (timer_tick tick)

abbrev pub divisor : ℕ
divisor = 1193280 / 100

-- The port writes of initTimer, in order.
abbrev pub init_timer : List (ℕ × ℕ)
init_timer =
    (0x43, 0x36) ∷ (0x40, bit_and divisor 0xFF) ∷ (0x40, bit_and (divisor / 2 ^ 8) 0xFF) ∷ []

-- The test of the loop in sleep, `tick - initialTicks < milliseconds`.
unfoldable pub sleeping : ℕ → ℕ → ℕ → Bool
sleeping initial milliseconds tick = ltb ((tick + 2 ^ 32 - initial) % 2 ^ 32) milliseconds

-- The loop of sleep over the interrupts that come between one read of `tick` and the next. The
-- result is the number of interrupts since the call; `none` is a call that still waits.
unfoldable pub sleep_loop : ℕ → ℕ → ℕ → ℕ → List ℕ → Option ℕ
unfolding sleeping
sleep_loop initial milliseconds tick passed [] = none
sleep_loop initial milliseconds tick passed (n ∷ gaps) =
    let later = ticks n tick in
    let rest = sleep_loop initial milliseconds later (passed + n) gaps in
    elim (sleeping initial milliseconds later) [ true ↦ rest | false ↦ some (passed + n) ]

unfoldable pub sleep : ℕ → ℕ → List ℕ → Option ℕ
unfolding sleep_loop
sleep tick milliseconds gaps = sleep_loop tick milliseconds tick 0 gaps
