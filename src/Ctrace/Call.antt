-- ===== src/Ctrace/Call.antt =====
-- The calls that a program makes of firmware/emsa5/hal/ctrace.h, with the messages that they stand
-- for. This is the description that `Stream` holds the code against.
use trace_fs.Base.{ℕ, ◌^◌, ◌<◌, List, [], ◌∷◌, ◌++◌}
use trace_fs.Base.Int.{ℤ, InRange}
use trace_fs.Ctrace.Protocol.{Message, uint_value, int_value, float_value, ptr_value, owner}
use trace_fs.Ctrace.Emit.{
  CsrWrite, emit_marker, emit_pc, emit_nop, emit_sync, emit_data_u8, emit_data_u16, emit_data_u32,
  emit_data_u64, emit_data_s8, emit_data_s16, emit_data_s32, emit_data_s64, emit_data_f32,
  emit_data_f64, emit_data_p32, add_trace_point, ownership_trace,
}

pub data Call : Type 0 where
  marker : ℕ → Call
  pc nop sync trace_point : Call
  u8 u16 u32 u64 : ℕ → Call
  s8 s16 s32 s64 : ℤ → Call
  f32 f64 p32 : ℕ → Call
  ownership : ℕ → Call

-- The function that each call names.
unfoldable pub emit : Call → List CsrWrite
emit (marker tag) = emit_marker tag
emit pc = emit_pc
emit nop = emit_nop
emit sync = emit_sync
emit trace_point = add_trace_point
emit (u8 n) = emit_data_u8 n
emit (u16 n) = emit_data_u16 n
emit (u32 n) = emit_data_u32 n
emit (u64 n) = emit_data_u64 n
emit (s8 z) = emit_data_s8 z
emit (s16 z) = emit_data_s16 z
emit (s32 z) = emit_data_s32 z
emit (s64 z) = emit_data_s64 z
emit (f32 n) = emit_data_f32 n
emit (f64 n) = emit_data_f64 n
emit (p32 n) = emit_data_p32 n
emit (ownership id) = ownership_trace id

unfoldable pub emit_all : List Call → List CsrWrite
emit_all [] = []
emit_all (c ∷ cs) = emit c ++ emit_all cs

-- The argument is a value of the parameter's C type.
abbrev pub Fits : Call → Type 0
Fits (marker tag) = tag < 2 ^ 8
Fits pc = Unit
Fits nop = Unit
Fits sync = Unit
Fits trace_point = Unit
Fits (u8 n) = n < 2 ^ 8
Fits (u16 n) = n < 2 ^ 16
Fits (u32 n) = n < 2 ^ 32
Fits (u64 n) = n < 2 ^ 64
Fits (s8 z) = InRange 8 z
Fits (s16 z) = InRange 16 z
Fits (s32 z) = InRange 32 z
Fits (s64 z) = InRange 64 z
Fits (f32 n) = n < 2 ^ 32
Fits (f64 n) = n < 2 ^ 64
Fits (p32 n) = n < 2 ^ 32
Fits (ownership id) = id < 2 ^ 16

abbrev pub AllFit : List Call → Type 0
AllFit [] = Unit
AllFit (c ∷ cs) = Fits c × AllFit cs

-- What a receiver of data is to learn from a call; the other commands carry none.
abbrev pub meaning : Call → List Message
meaning (u8 n) = uint_value 8 n ∷ []
meaning (u16 n) = uint_value 16 n ∷ []
meaning (u32 n) = uint_value 32 n ∷ []
meaning (u64 n) = uint_value 64 n ∷ []
meaning (s8 z) = int_value 8 z ∷ []
meaning (s16 z) = int_value 16 z ∷ []
meaning (s32 z) = int_value 32 z ∷ []
meaning (s64 z) = int_value 64 z ∷ []
meaning (f32 n) = float_value 32 n ∷ []
meaning (f64 n) = float_value 64 n ∷ []
meaning (p32 n) = ptr_value 32 n ∷ []
meaning (ownership id) = owner id ∷ []
meaning (marker _) = []
meaning pc = []
meaning nop = []
meaning sync = []
meaning trace_point = []

abbrev pub meanings : List Call → List Message
meanings [] = []
meanings (c ∷ cs) = meaning c ++ meanings cs
