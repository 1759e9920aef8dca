-- ===== src/Hal/Core/Waiting.antt =====
-- The rounds of `core_busy_waiting`.
use trace_fs.Base.{ℕ, zero, suc, ◌-◌, ◌+◌, ◌==◌, false, ◌<◌, ◌≡◌, some, arith, refl}
use trace_fs.Hal.Core.{core_busy_waiting}

-- With more fuel than cycles, the loop ends after exactly as many rounds as it is told.
pub core_busy_waiting-ends :
    (fuel cycles : ℕ) → cycles < fuel → core_busy_waiting fuel cycles ≡ some cycles
unfolding core_busy_waiting
core_busy_waiting-ends zero cycles h = elim h [ ]
core_busy_waiting-ends (suc fuel) zero h = refl
core_busy_waiting-ends (suc fuel) (suc cycles) h =
    let rest = core_busy_waiting-ends fuel (suc cycles - 1) (omega arith) in
    rw (core_busy_waiting, rest, not_zero cycles, back cycles) refl
  where
    not_zero : (n : ℕ) → (suc n == 0) ≡ false
    not_zero n = ground arith

    back : (n : ℕ) → suc n - 1 + 1 ≡ suc n
    back n = omega arith
