-- ===== src/Ctrace/Test/Phases.antt =====
-- What each call of `ctrace_test_main` (firmware/emsa5/asw/ctrace_test/ctrace_test.c) sends.

use trace_fs.Base.{
  ℕ, zero, suc, ◌+◌, ◌%◌, ◌^◌, ◌<◌, List, [], ◌∷◌, ◌++◌, ◌≡◌, refl, arith, ◌==◌, if◌then◌else◌,
  Bool, true, false,
}
use trace_fs.Ctrace.Protocol.{idle, receive}
use trace_fs.Ctrace.Call.{f32, f64}
use trace_fs.Ctrace.Plain.{plain, plain_of_all, plain-emit_all}
use trace_fs.Ctrace.Stream.{receive-emit_all}
use trace_fs.Ctrace.Test.{
  half_f32, two_point_two_f64, has_extension, ctrace_test_main, expected, calls, emit_all-calls,
  meanings-calls, calls-AllFit,
}

-- The commands without data that the phase is to send: four markers, which are program counters with
-- a byte, or the program counter and a command that does nothing.
abbrev pub expected_plain : ℕ → List (ℕ × ℕ)
expected_plain phase =
    if phase == 0
    then (1, 0xde) ∷ (1, 0xad) ∷ (1, 0xbe) ∷ (1, 0xef) ∷ []
    else if phase == 1
    then (1, 0) ∷ (0, 0) ∷ []
    else []

plain-floats :
    (f d : Bool)
    → plain_of_all
        ((if f then f32 half_f32 ∷ [] else []) ++ (if d then f64 two_point_two_f64 ∷ [] else []))
      ≡ []
plain-floats true true = refl
plain-floats true false = refl
plain-floats false true = refl
plain-floats false false = refl

plain-calls : (k misa self : ℕ) → k < 8 → plain_of_all (calls k misa self) ≡ expected_plain k
unfolding calls
plain-calls zero misa self h = refl
plain-calls (suc zero) misa self h = refl
plain-calls (suc (suc zero)) misa self h = refl
plain-calls (suc (suc (suc zero))) misa self h = refl
plain-calls (suc (suc (suc (suc zero)))) misa self h = refl
plain-calls (suc (suc (suc (suc (suc zero))))) misa self h = refl
plain-calls (suc (suc (suc (suc (suc (suc zero)))))) misa self h =
    plain-floats (has_extension misa (2 ^ 5)) (has_extension misa (2 ^ 3))
plain-calls (suc (suc (suc (suc (suc (suc (suc zero))))))) misa self h = refl
plain-calls (suc (suc (suc (suc (suc (suc (suc (suc k)))))))) misa self h = absurd (omega arith)

-- For any value of the counter, of `misa` and of the function's address, the receiver reads
-- exactly the messages of the phase; the commands without data are exactly the phase's, with their
-- data, which are the markers 0xde, 0xad, 0xbe and 0xef in phase 0, the program counter and the empty
-- command in phase 1, and none in the others; the counter stays in 32 bits, and the next call is in
-- the next of the eight phases, also where the counter wraps.
pub ctrace_test_main-phases :
    (counter misa self : ℕ)
    → self < 2 ^ 32
    → let (writes, counter') = ctrace_test_main counter misa self in
      (receive idle writes ≡ expected (counter % 8) misa self)
      × (plain writes ≡ expected_plain (counter % 8))
      × (counter' < 2 ^ 32)
      × (counter' % 8 ≡ (counter % 8 + 1) % 8)
unfolding ctrace_test_main
ctrace_test_main-phases counter misa self h = (
  rw
      (
        ← emit_all-calls (counter % 8) misa self (omega arith),
        receive-emit_all _ (calls-AllFit (counter % 8) misa self (omega arith) h),
      )
      (meanings-calls (counter % 8) misa self (omega arith)),
  rw (← emit_all-calls (counter % 8) misa self (omega arith), plain-emit_all)
      (plain-calls (counter % 8) misa self (omega arith)),
  omega arith,
  omega arith,
)
