-- ===== src/Timer/Sleep.antt =====
-- How long sleep waits, also across the wrap of the tick counter.
use myreallyoldkernel.Timer.{timer_tick, ticks, sleeping, sleep_loop, sleep}
use myreallyoldkernel.Prelude.{
  ℕ, zero, suc, ◌+◌, ◌-◌, ◌%◌, ◌^◌, ◌≤◌, ◌<◌, ◌≡◌, refl, ◌∙◌, inl, inr, arith, Option, some, List,
  [], ◌∷◌, ltb, Bool-cases,
}

ticks-mod : (n tick : ℕ) → tick < 2 ^ 32 → ticks n tick ≡ (tick + n) % 2 ^ 32
unfolding ticks timer_tick
ticks-mod zero tick h = omega arith
ticks-mod (suc n) tick h = omega (arith, ticks-mod n ((tick + 1) % 2 ^ 32) (omega arith))

-- After `n` interrupts, fewer than 2 ^ 32, the loop of sleep still waits exactly when `n` is less
-- than the count asked for, also where the counter has wrapped since.
pub sleeping-ticks :
    (initial milliseconds n : ℕ)
    → initial < 2 ^ 32
    → n < 2 ^ 32
    → sleeping initial milliseconds (ticks n initial) ≡ ltb n milliseconds
unfolding sleeping
sleeping-ticks initial milliseconds n hi hn =
    let e : (ticks n initial + 2 ^ 32 - initial) % 2 ^ 32 ≡ n =
      omega (arith, ticks-mod n initial hi) in
    rw e

abbrev pub sum : List ℕ → ℕ
sum [] = 0
sum (n ∷ gaps) = n + sum gaps

ticks-add : (n m tick : ℕ) → tick < 2 ^ 32 → ticks m (ticks n tick) ≡ ticks (n + m) tick
ticks-add n m tick h = omega (
  arith,
  ticks-mod n tick h,
  ticks-mod m (ticks n tick) (omega (arith, ticks-mod n tick h)),
  ticks-mod (n + m) tick h,
)

-- What a call that ends has waited for.
record Waited (milliseconds passed : ℕ) (gaps : List ℕ) (r : Option ℕ) : Type 0 where
  ends : milliseconds ≤ passed + sum gaps → (t : ℕ) × (r ≡ some t)
  enough : (t : ℕ) → r ≡ some t → milliseconds ≤ t

sleep_loop-Waited :
    (initial milliseconds passed : ℕ) (gaps : List ℕ)
    → initial < 2 ^ 32
    → passed + sum gaps < 2 ^ 32
    → passed < milliseconds
    → Waited milliseconds passed gaps
        (sleep_loop initial milliseconds (ticks passed initial) passed gaps)
unfolding sleep_loop
sleep_loop-Waited initial milliseconds passed [] hi hs lt = record {
  ends = λ h. absurd (omega arith);
  enough = λ t e. cc;
}
sleep_loop-Waited initial milliseconds passed (n ∷ gaps) hi hs lt =
    let test : sleeping initial milliseconds (ticks n (ticks passed initial))
        ≡ ltb (passed + n) milliseconds =
      rw (ticks-add passed n initial hi)
        (sleeping-ticks initial milliseconds (passed + n) hi (omega arith)) in
    elim (Bool-cases (ltb (passed + n) milliseconds)) [
      | inr out ↦
          rw (test ∙ out, sleep_loop)
            (record { ends = λ h. (passed + n, refl); enough = λ t e. ground arith })
      | inl more ↦
          let rest =
            sleep_loop-Waited initial milliseconds (passed + n) gaps hi (omega arith)
              (ground arith) in
          rw (test ∙ more, sleep_loop, ticks-add passed n initial hi)
            (record { ends = λ h. rest.ends (omega arith); enough = rest.enough })
    ]

-- For a positive count, whatever number of interrupts comes between two reads of the counter,
-- fewer than 2 ^ 32 in all: sleep returns once the count of interrupts has come, and never before.
pub sleep_lem :
    (tick milliseconds : ℕ) (gaps : List ℕ)
    → tick < 2 ^ 32
    → sum gaps < 2 ^ 32
    → 0 < milliseconds
    → (milliseconds ≤ sum gaps → (t : ℕ) × (sleep tick milliseconds gaps ≡ some t))
      × ((t : ℕ) → sleep tick milliseconds gaps ≡ some t → milliseconds ≤ t)
unfolding sleep ticks
sleep_lem tick milliseconds gaps hi hs pos =
    let w = sleep_loop-Waited tick milliseconds 0 gaps hi (omega arith) pos in
    (λ h. w.ends (omega arith), w.enough)
