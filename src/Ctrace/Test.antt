-- ===== src/Ctrace/Test.antt =====
-- firmware/emsa5/asw/ctrace_test/ctrace_test.c. The static counter is passed in and out; `misa` is
-- what the CSR holds, `self` the address of the function. The two float constants are patterns.
pub mod Phases
use mathlib.Core.List.{append-nil}
use trace_fs.Base.{
  ℕ, zero, suc, ◌+◌, ◌-◌, ◌%◌, ◌^◌, ◌<◌, bit_and, List, [], ◌∷◌, ◌++◌, ◌≡◌, refl, arith, ap, ◌==◌,
  if◌then◌else◌, Bool, true, false,
}
use trace_fs.Base.Int.{pos, negsuc}
use trace_fs.Ctrace.Emit.{
  CsrWrite, emit_marker, emit_pc, emit_nop, emit_data_u8, emit_data_u16, emit_data_u32,
  emit_data_u64, emit_data_s8, emit_data_s16, emit_data_s32, emit_data_s64, emit_data_f32,
  emit_data_f64, emit_data_p32,
}
use trace_fs.Ctrace.Protocol.{Message, uint_value, int_value, float_value, ptr_value, idle, receive}
use trace_fs.Ctrace.Call.{
  Call, marker, pc, nop, u8, u16, u32, u64, s8, s16, s32, s64, f32, f64, p32, emit, emit_all,
  AllFit, meanings,
}
use trace_fs.Ctrace.Plain.{plain, plain_of_all, plain-emit_all}
use trace_fs.Ctrace.Stream.{receive-emit_all}

-- 0.5f and 2.2 in IEEE 754.
abbrev half_f32 : ℕ
half_f32 = 0x3f00_0000

abbrev two_point_two_f64 : ℕ
two_point_two_f64 = 0x4001_9999_9999_999a

-- `available_extensions & (1 << bit)`, as a condition.
abbrev has_extension : ℕ → ℕ → Bool
has_extension misa mask = if bit_and misa mask == 0 then false else true

-- The writes of one call, by `counter % 8`.
unfoldable pub test_writes : ℕ → ℕ → ℕ → List CsrWrite
test_writes phase misa self =
    if phase == 0
    then emit_marker 0xde ++ (emit_marker 0xad ++ (emit_marker 0xbe ++ emit_marker 0xef))
    else if phase == 1
    then emit_pc ++ emit_nop
    else if phase == 2
    then emit_data_u8 0 ++ (emit_data_u16 0 ++ (emit_data_u32 0 ++ emit_data_u64 0))
    else if phase == 3
    then emit_data_u8 255
      ++ (emit_data_u16 65535 ++ (emit_data_u32 (2 ^ 32 - 1) ++ emit_data_u64 (2 ^ 64 - 1)))
    else if phase == 4
    then emit_data_s8 (negsuc 127)
      ++ (emit_data_s16 (negsuc 32767)
          ++ (emit_data_s32 (negsuc (2 ^ 31 - 1)) ++ emit_data_s64 (negsuc (2 ^ 63 - 1))))
    else if phase == 5
    then emit_data_s8 (pos 127)
      ++ (emit_data_s16 (pos 32767)
          ++ (emit_data_s32 (pos (2 ^ 31 - 1)) ++ emit_data_s64 (pos (2 ^ 63 - 1))))
    else if phase == 6
    then emit_data_u32 0xdeadbeef
      ++ ((if has_extension misa (2 ^ 5) then emit_data_f32 half_f32 else [])
          ++ (if has_extension misa (2 ^ 3) then emit_data_f64 two_point_two_f64 else []))
    else emit_data_p32 0 ++ emit_data_p32 self

unfoldable pub ctrace_test_main : ℕ → ℕ → ℕ → List CsrWrite × ℕ
unfolding test_writes
ctrace_test_main counter misa self = (test_writes (counter % 8) misa self, (counter + 1) % 2 ^ 32)

-- What the phase given by the low three bits of the counter is to send.
abbrev pub expected : ℕ → ℕ → ℕ → List Message
expected phase misa self =
    if phase == 2
    then uint_value 8 0 ∷ uint_value 16 0 ∷ uint_value 32 0 ∷ uint_value 64 0 ∷ []
    else if phase == 3
    then uint_value 8 0xff
      ∷ uint_value 16 0xffff
      ∷ uint_value 32 0xffff_ffff
      ∷ uint_value 64 0xffff_ffff_ffff_ffff
      ∷ []
    else if phase == 4
    then int_value 8 (negsuc 0x7f)
      ∷ int_value 16 (negsuc 0x7fff)
      ∷ int_value 32 (negsuc 0x7fff_ffff)
      ∷ int_value 64 (negsuc 0x7fff_ffff_ffff_ffff)
      ∷ []
    else if phase == 5
    then int_value 8 (pos 0x7f)
      ∷ int_value 16 (pos 0x7fff)
      ∷ int_value 32 (pos 0x7fff_ffff)
      ∷ int_value 64 (pos 0x7fff_ffff_ffff_ffff)
      ∷ []
    else if phase == 6
    then uint_value 32 0xdeadbeef
      ∷ ((if bit_and misa 32 == 0 then [] else float_value 32 half_f32 ∷ [])
          ++ (if bit_and misa 8 == 0 then [] else float_value 64 two_point_two_f64 ∷ []))
    else if phase == 7
    then ptr_value 32 0 ∷ ptr_value 32 self ∷ []
    else []

-- The calls of each phase; the last one is written apart since nothing follows it.
pub calls : ℕ → ℕ → ℕ → List Call
calls phase misa self =
    if phase == 0
    then marker 0xde ∷ marker 0xad ∷ marker 0xbe ∷ marker 0xef ∷ []
    else if phase == 1
    then pc ∷ nop ∷ []
    else if phase == 2
    then u8 0 ∷ u16 0 ∷ u32 0 ∷ u64 0 ∷ []
    else if phase == 3
    then u8 255 ∷ u16 65535 ∷ u32 (2 ^ 32 - 1) ∷ u64 (2 ^ 64 - 1) ∷ []
    else if phase == 4
    then s8 (negsuc 127)
      ∷ s16 (negsuc 32767)
      ∷ s32 (negsuc (2 ^ 31 - 1))
      ∷ s64 (negsuc (2 ^ 63 - 1))
      ∷ []
    else if phase == 5
    then s8 (pos 127) ∷ s16 (pos 32767) ∷ s32 (pos (2 ^ 31 - 1)) ∷ s64 (pos (2 ^ 63 - 1)) ∷ []
    else if phase == 6
    then u32 0xdeadbeef
      ∷ ((if has_extension misa (2 ^ 5) then f32 half_f32 ∷ [] else [])
          ++ (if has_extension misa (2 ^ 3) then f64 two_point_two_f64 ∷ [] else []))
    else p32 0 ∷ p32 self ∷ []

-- The floats are sent where the extensions are there.
emit_all-floats :
    (f d : Bool)
    → emit_all
        ((if f then f32 half_f32 ∷ [] else []) ++ (if d then f64 two_point_two_f64 ∷ [] else []))
      ≡ (if f then emit_data_f32 half_f32 else [])
        ++ (if d then emit_data_f64 two_point_two_f64 else [])
unfolding emit_all emit
emit_all-floats true true = rw append-nil
emit_all-floats true false = refl
emit_all-floats false true = rw append-nil
emit_all-floats false false = refl

pub emit_all-calls :
    (k misa self : ℕ) → k < 8 → emit_all (calls k misa self) ≡ test_writes k misa self
unfolding test_writes calls emit_all emit
emit_all-calls zero misa self h = rw append-nil
emit_all-calls (suc zero) misa self h = rw append-nil
emit_all-calls (suc (suc zero)) misa self h = rw append-nil
emit_all-calls (suc (suc (suc zero))) misa self h = rw append-nil
emit_all-calls (suc (suc (suc (suc zero)))) misa self h = rw append-nil
emit_all-calls (suc (suc (suc (suc (suc zero))))) misa self h = rw append-nil
emit_all-calls (suc (suc (suc (suc (suc (suc zero)))))) misa self h =
    ap (λ (t : List CsrWrite). emit_data_u32 0xdeadbeef ++ t)
      (emit_all-floats (has_extension misa (2 ^ 5)) (has_extension misa (2 ^ 3)))
emit_all-calls (suc (suc (suc (suc (suc (suc (suc zero))))))) misa self h = rw append-nil
emit_all-calls (suc (suc (suc (suc (suc (suc (suc (suc k)))))))) misa self h = absurd (omega arith)

meanings-floats :
    (f d : Bool)
    → meanings (
        (if (if f then false else true) then f32 half_f32 ∷ [] else [])
        ++ (if (if d then false else true) then f64 two_point_two_f64 ∷ [] else []))
      ≡ (if f then [] else float_value 32 half_f32 ∷ [])
        ++ (if d then [] else float_value 64 two_point_two_f64 ∷ [])
meanings-floats true true = refl
meanings-floats true false = refl
meanings-floats false true = refl
meanings-floats false false = refl

pub meanings-calls : (k misa self : ℕ) → k < 8 → meanings (calls k misa self) ≡ expected k misa self
unfolding calls
meanings-calls zero misa self h = refl
meanings-calls (suc zero) misa self h = refl
meanings-calls (suc (suc zero)) misa self h = refl
meanings-calls (suc (suc (suc zero))) misa self h = refl
meanings-calls (suc (suc (suc (suc zero)))) misa self h = refl
meanings-calls (suc (suc (suc (suc (suc zero))))) misa self h = refl
meanings-calls (suc (suc (suc (suc (suc (suc zero)))))) misa self h =
    ap (λ (t : List Message). uint_value 32 0xdeadbeef ∷ t)
      (meanings-floats (bit_and misa (2 ^ 5) == 0) (bit_and misa (2 ^ 3) == 0))
meanings-calls (suc (suc (suc (suc (suc (suc (suc zero))))))) misa self h = refl
meanings-calls (suc (suc (suc (suc (suc (suc (suc (suc k)))))))) misa self h = absurd (omega arith)

floats_fit :
    (f d : Bool)
    → AllFit (
        u32 0xdeadbeef
        ∷ ((if f then f32 half_f32 ∷ [] else []) ++ (if d then f64 two_point_two_f64 ∷ [] else [])))
floats_fit true true = omega arith
floats_fit true false = omega arith
floats_fit false true = omega arith
floats_fit false false = omega arith

pub calls-AllFit : (k misa self : ℕ) → k < 8 → self < 2 ^ 32 → AllFit (calls k misa self)
unfolding calls
calls-AllFit zero misa self h hs = omega arith
calls-AllFit (suc zero) misa self h hs = omega arith
calls-AllFit (suc (suc zero)) misa self h hs = omega arith
calls-AllFit (suc (suc (suc zero))) misa self h hs = omega arith
calls-AllFit (suc (suc (suc (suc zero)))) misa self h hs = omega arith
calls-AllFit (suc (suc (suc (suc (suc zero))))) misa self h hs = omega arith
calls-AllFit (suc (suc (suc (suc (suc (suc zero)))))) misa self h hs =
    floats_fit (has_extension misa (2 ^ 5)) (has_extension misa (2 ^ 3))
calls-AllFit (suc (suc (suc (suc (suc (suc (suc zero))))))) misa self h hs = omega arith
calls-AllFit (suc (suc (suc (suc (suc (suc (suc (suc k)))))))) misa self h hs = absurd (omega arith)
