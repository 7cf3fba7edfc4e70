-- ===== src/Timer/Tests.antt =====
-- The divisor that the timer is given, and the theorems of sleep at the wrap of the counter.
use myreallyoldkernel.Timer.{sleep, init_timer}
use myreallyoldkernel.Timer.Sleep.{sum, sleep_lem}
use myreallyoldkernel.Prelude.{ℕ, ◌-◌, ◌≤◌, ◌^◌, ◌≡◌, refl, arith, some, List, [], ◌∷◌}

init_timer_bytes : init_timer ≡ (0x43, 0x36) ∷ (0x40, 0x9C) ∷ (0x40, 0x2E) ∷ []
init_timer_bytes = refl

abbrev gaps : List ℕ
gaps = 0 ∷ 2 ∷ 1 ∷ 4 ∷ 7 ∷ []

sleep_lem_example :
    (5 ≤ sum gaps → (t : ℕ) × (sleep (2 ^ 32 - 1) 5 gaps ≡ some t))
    × ((t : ℕ) → sleep (2 ^ 32 - 1) 5 gaps ≡ some t → 5 ≤ t)
sleep_lem_example = sleep_lem (2 ^ 32 - 1) 5 gaps (omega arith) (omega arith) (omega arith)
