-- ===== src/Ctrace/Stream.antt =====
-- The messages that a receiver reads from the writes of firmware/emsa5/hal/ctrace.h.

use native.Mathlib.Nat.{one-le-pow}
use trace_fs.Base.{
  ◌≢◌, ◌-◌, ℕ, ◌+◌, ◌*◌, ◌/◌, ◌%◌, ◌^◌, ◌<◌, List, [], ◌∷◌, ◌++◌, ◌≡◌, refl, arith, ap, ◌∙◌,
}
use trace_fs.Base.Int.{ℤ, pos, negsuc, InRange, pattern_of, signed_of-pattern_of}
use trace_fs.Bits.{bit_and_ones}
use trace_fs.Ctrace.Emit.{
  CsrWrite, csr_write, word_at, signed_word_at, ctrace_act_cap_cmd_csr, emit_marker, emit_pc,
  emit_nop, emit_sync, emit_data_u8, emit_data_u16, emit_data_u32, emit_data_u64, emit_data_s8,
  emit_data_s16, emit_data_s32, emit_data_s64, emit_data_f32, emit_data_f64, emit_data_p32,
  add_trace_point, ownership_trace,
}
use trace_fs.Ctrace.Register.{get_cmd, cmd_code, daq_direct_data}
use trace_fs.Ctrace.Word.{build_as_sum}
use trace_fs.Ctrace.Protocol.{idle, int_value, take_write, receive, deliver}
use trace_fs.Ctrace.Datum.{
  receive-one, receive-two, receive-four, receive-owner, continue_with, end_with,
}
use trace_fs.Ctrace.Call.{
  Call, marker, pc, nop, sync, trace_point, u8, u16, u32, u64, s8, s16, s32, s64, f32, f64, p32,
  ownership, emit, emit_all, Fits, AllFit, meaning, meanings,
}

word_at_lem : (k n : ℕ) → word_at k n ≡ n / 2 ^ k % 2 ^ 16
word_at_lem k n = omega (arith, bit_and_ones 16 (n / 2 ^ k))

-- The halves and the quarters of a signed value are those of its pattern.
signed_halves :
    (z : ℤ)
    → InRange 32 z
    → signed_word_at 32 0 z + signed_word_at 32 16 z * 2 ^ 16 ≡ pattern_of 32 z
signed_halves (pos n) h =
    omega (arith, bit_and_ones 16 (n / 2 ^ 0 % 2 ^ 32), bit_and_ones 16 (n / 2 ^ 16 % 2 ^ 32))
signed_halves (negsuc n) h = omega (
  arith,
  bit_and_ones 16 (2 ^ 32 - 1 - n / 2 ^ 0 % 2 ^ 32),
  bit_and_ones 16 (2 ^ 32 - 1 - n / 2 ^ 16 % 2 ^ 32),
)

signed_quarters :
    (z : ℤ)
    → InRange 64 z
    → signed_word_at 64 0 z
        + signed_word_at 64 16 z * 2 ^ 16
        + signed_word_at 64 32 z * 2 ^ 32
        + signed_word_at 64 48 z * 2 ^ 48
      ≡ pattern_of 64 z
signed_quarters (pos n) h = omega (
  arith,
  bit_and_ones 16 (n / 2 ^ 0 % 2 ^ 64),
  bit_and_ones 16 (n / 2 ^ 16 % 2 ^ 64),
  bit_and_ones 16 (n / 2 ^ 32 % 2 ^ 64),
  bit_and_ones 16 (n / 2 ^ 48 % 2 ^ 64),
)
signed_quarters (negsuc n) h = omega (
  arith,
  bit_and_ones 16 (2 ^ 64 - 1 - n / 2 ^ 0 % 2 ^ 64),
  bit_and_ones 16 (2 ^ 64 - 1 - n / 2 ^ 16 % 2 ^ 64),
  bit_and_ones 16 (2 ^ 64 - 1 - n / 2 ^ 32 % 2 ^ 64),
  bit_and_ones 16 (2 ^ 64 - 1 - n / 2 ^ 48 % 2 ^ 64),
)

module _ (type : ℕ) (rest : List CsrWrite) (ht : type < 4) where
  receive-halves :
      (n : ℕ)
      → n < 2 ^ 32
      → receive idle
          ((continue_with type 4 (word_at 0 n) ++ end_with type 4 (word_at 16 n)) ++ rest)
        ≡ deliver type 32 n ∷ receive idle rest
  receive-halves n h =
      receive-two type rest ht (word_at 0 n) (word_at 16 n) (omega arith) (omega arith)
      ∙ ap (λ (v : ℕ). deliver type 32 v ∷ receive idle rest)
          (omega (arith, word_at_lem 0 n, word_at_lem 16 n))

  receive-quarters :
      (n : ℕ)
      → n < 2 ^ 64
      → receive idle (
          (continue_with type 8 (word_at 0 n)
            ++ (continue_with type 8 (word_at 16 n)
                ++ (continue_with type 8 (word_at 32 n) ++ end_with type 8 (word_at 48 n))))
          ++ rest)
        ≡ deliver type 64 n ∷ receive idle rest
  receive-quarters n h =
      receive-four type rest ht (word_at 0 n) (word_at 16 n) (word_at 32 n) (word_at 48 n)
        (omega arith) (omega arith) (omega arith) (omega arith)
      ∙ ap (λ (v : ℕ). deliver type 64 v ∷ receive idle rest)
          (omega (arith, word_at_lem 0 n, word_at_lem 16 n, word_at_lem 32 n, word_at_lem 48 n))

-- A word of another command tells a receiver of data nothing.
receive-command :
    (v : ℕ) (rest : List CsrWrite)
    → get_cmd v ≢ cmd_code daq_direct_data
    → receive idle (csr_write ctrace_act_cap_cmd_csr v ++ rest) ≡ receive idle rest
unfolding receive take_write
receive-command v rest h = ground arith

receive-emit_signed :
    (rest : List CsrWrite) (z : ℤ)
    → InRange 32 z
    → receive idle (emit_data_s32 z ++ rest) ≡ int_value 32 z ∷ receive idle rest
unfolding emit_data_s32
receive-emit_signed rest z h =
    receive-two 1 rest (omega arith) (signed_word_at 32 0 z) (signed_word_at 32 16 z) (omega arith)
      (omega arith)
    ∙ ap (λ (v : ℕ). deliver 1 32 v ∷ receive idle rest) (signed_halves z h)
    ∙ ap (λ (v : ℤ). int_value 32 v ∷ receive idle rest) (signed_of-pattern_of 32 z h)

receive-emit_signed64 :
    (rest : List CsrWrite) (z : ℤ)
    → InRange 64 z
    → receive idle (emit_data_s64 z ++ rest) ≡ int_value 64 z ∷ receive idle rest
unfolding emit_data_s64
receive-emit_signed64 rest z h =
    receive-four 1 rest (omega arith) (signed_word_at 64 0 z) (signed_word_at 64 16 z)
      (signed_word_at 64 32 z) (signed_word_at 64 48 z) (omega arith) (omega arith) (omega arith)
      (omega arith)
    ∙ ap (λ (v : ℕ). deliver 1 64 v ∷ receive idle rest) (signed_quarters z h)
    ∙ ap (λ (v : ℤ). int_value 64 v ∷ receive idle rest) (signed_of-pattern_of 64 z h)

pattern_lt : (w : ℕ) (z : ℤ) → pattern_of w z < 2 ^ w
pattern_lt w (pos n) = omega (arith, one-le-pow w 2)
pattern_lt w (negsuc n) = omega (arith, one-le-pow w 2)

-- A signed value of 8 or 16 bits.
receive-signed :
    (n : ℕ) (rest : List CsrWrite) (z : ℤ)
    → 0 < n
    → n < 3
    → InRange (8 * n) z
    → pattern_of (8 * n) z < 2 ^ 16
    → receive idle (end_with 1 n (pattern_of (8 * n) z) ++ rest)
      ≡ int_value (8 * n) z ∷ receive idle rest
receive-signed n rest z hp hn h fits =
    receive-one 1 rest (omega arith) n (pattern_of (8 * n) z) hp hn fits (pattern_lt (8 * n) z)
    ∙ ap (λ (v : ℤ). int_value (8 * n) v ∷ receive idle rest) (signed_of-pattern_of (8 * n) z h)

-- From the idle state, the receiver reads the meaning of a call and is idle again.
receive-emit :
    (c : Call) (rest : List CsrWrite)
    → Fits c
    → receive idle (emit c ++ rest) ≡ meaning c ++ receive idle rest
unfolding emit emit_marker emit_pc emit_nop emit_sync emit_data_u8 emit_data_u16 emit_data_u32
    emit_data_u64 emit_data_s8 emit_data_s16 emit_data_f32 emit_data_f64 emit_data_p32
    add_trace_point ownership_trace
receive-emit (marker tag) rest h = receive-command _ rest (omega (arith, build_as_sum 1 0 tag))
receive-emit pc rest h = receive-command 1 rest (omega arith)
receive-emit nop rest h = receive-command 0 rest (omega arith)
receive-emit sync rest h = receive-command 12 rest (omega arith)
receive-emit trace_point rest h = receive-command 12 rest (omega arith)
receive-emit (u8 n) rest h =
    receive-one 2 rest (omega arith) 1 n (omega arith) (omega arith) (omega arith) h
receive-emit (u16 n) rest h = receive-one 2 rest (omega arith) 2 n (omega arith) (omega arith) h h
receive-emit (u32 n) rest h = receive-halves 2 rest (omega arith) n h
receive-emit (u64 n) rest h = receive-quarters 2 rest (omega arith) n h
receive-emit (s8 z) rest h =
    receive-signed 1 rest z (omega arith) (omega arith) h (omega (arith, pattern_lt 8 z))
receive-emit (s16 z) rest h =
    receive-signed 2 rest z (omega arith) (omega arith) h (pattern_lt 16 z)
receive-emit (s32 z) rest h = receive-emit_signed rest z h
receive-emit (s64 z) rest h = receive-emit_signed64 rest z h
receive-emit (f32 n) rest h = receive-halves 3 rest (omega arith) n h
receive-emit (f64 n) rest h = receive-quarters 3 rest (omega arith) n h
receive-emit (p32 n) rest h = receive-halves 0 rest (omega arith) n h
receive-emit (ownership id) rest h = receive-owner id idle rest h

-- For any calls with arguments of their C types, the receiver reads exactly their meanings, in order.
pub receive-emit_all : (cs : List Call) → AllFit cs → receive idle (emit_all cs) ≡ meanings cs
unfolding emit_all
receive-emit_all [] h = unfold receive in refl
receive-emit_all (c ∷ cs) h = rw (receive-emit c (emit_all cs) h.0, receive-emit_all cs h.1)
