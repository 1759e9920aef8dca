-- ===== src/Ctrace/Plain.antt =====
-- The commands of firmware/emsa5/hal/ctrace.h that carry no typed data: markers, the program counter,
-- and the rest, as the fields of the command register give them.
use trace_fs.Base.{ℕ, ◌%◌, ◌^◌, ◌≡◌, refl, ap, ◌∙◌, arith, List, [], ◌∷◌, ◌++◌, ◌==◌, if◌then◌else◌}
use trace_fs.Ctrace.Register.{
  get_cmd, get_direct_data, cmd_code, daq_pc_curr, daq_direct_data, sink_code, sink_nexus,
}
use trace_fs.Ctrace.Word.{build_command_word_fields}
use trace_fs.Ctrace.Emit.{
  CsrWrite, build_command_word, emit_marker, emit_pc, emit_nop, emit_sync, emit_data_raw,
  emit_data_u8, emit_data_u16, emit_data_u32, emit_data_u64, emit_data_s8, emit_data_s16,
  emit_data_s32, emit_data_s64, emit_data_f32, emit_data_f64, emit_data_p32, add_trace_point,
  ownership_trace,
}
use trace_fs.Ctrace.Call.{
  Call, marker, pc, nop, sync, trace_point, u8, u16, u32, u64, s8, s16, s32, s64, f32, f64, p32,
  ownership, emit, emit_all,
}

-- The command and the data of each write but those of the command that sends data.
abbrev pub plain : List CsrWrite → List (ℕ × ℕ)
plain [] = []
plain (w ∷ ws) =
    let rest = plain ws in
    if get_cmd w.value == 3 then rest else (get_cmd w.value, get_direct_data w.value) ∷ rest

-- What these are of a call.
abbrev pub plain_of : Call → List (ℕ × ℕ)
plain_of (marker tag) = (1, tag % 2 ^ 24) ∷ []
plain_of pc = (1, 0) ∷ []
plain_of nop = (0, 0) ∷ []
plain_of sync = (12, 0) ∷ []
plain_of trace_point = (12, 0) ∷ []
plain_of (u8 _) = []
plain_of (u16 _) = []
plain_of (u32 _) = []
plain_of (u64 _) = []
plain_of (s8 _) = []
plain_of (s16 _) = []
plain_of (s32 _) = []
plain_of (s64 _) = []
plain_of (f32 _) = []
plain_of (f64 _) = []
plain_of (p32 _) = []
plain_of (ownership _) = []

abbrev pub plain_of_all : List Call → List (ℕ × ℕ)
plain_of_all [] = []
plain_of_all (c ∷ cs) = plain_of c ++ plain_of_all cs

raw : (dat : ℕ) (ws : List CsrWrite) → plain (emit_data_raw dat ++ ws) ≡ plain ws
unfolding emit_data_raw
raw dat ws =
    let fields = build_command_word_fields (cmd_code daq_direct_data) (sink_code sink_nexus) dat in
    let e : get_cmd (build_command_word (cmd_code daq_direct_data) (sink_code sink_nexus) dat) ≡ 3 =
      omega (arith, fields.0) in
    rw e refl

two : (d e : ℕ) (ws : List CsrWrite) → plain ((emit_data_raw d ++ emit_data_raw e) ++ ws) ≡ plain ws
unfolding emit_data_raw
two d e ws = raw d (emit_data_raw e ++ ws) ∙ raw e ws

four :
    (d e i j : ℕ) (ws : List CsrWrite)
    → plain ((emit_data_raw d ++ (emit_data_raw e ++ (emit_data_raw i ++ emit_data_raw j))) ++ ws)
      ≡ plain ws
unfolding emit_data_raw
four d e i j ws =
    raw d (emit_data_raw e ++ (emit_data_raw i ++ (emit_data_raw j ++ ws)))
    ∙ raw e (emit_data_raw i ++ (emit_data_raw j ++ ws))
    ∙ two i j ws

plain-emit : (c : Call) (ws : List CsrWrite) → plain (emit c ++ ws) ≡ plain_of c ++ plain ws
unfolding emit emit_marker emit_pc emit_nop emit_sync add_trace_point emit_data_u8 emit_data_u16
    emit_data_u32 emit_data_u64 emit_data_s8 emit_data_s16 emit_data_s32 emit_data_s64 emit_data_f32
    emit_data_f64 emit_data_p32 ownership_trace
plain-emit (marker tag) ws =
    let fields = build_command_word_fields (cmd_code daq_pc_curr) (sink_code sink_nexus) tag in
    let e : get_cmd (build_command_word (cmd_code daq_pc_curr) (sink_code sink_nexus) tag) ≡ 1 =
      omega (arith, fields.0) in
    rw (e, fields.2) refl
plain-emit pc ws = refl
plain-emit nop ws = refl
plain-emit sync ws = refl
plain-emit trace_point ws = refl
plain-emit (u8 n) ws = raw _ ws
plain-emit (u16 n) ws = raw _ ws
plain-emit (u32 n) ws = two _ _ ws
plain-emit (u64 n) ws = four _ _ _ _ ws
plain-emit (s8 z) ws = raw _ ws
plain-emit (s16 z) ws = raw _ ws
plain-emit (s32 z) ws = two _ _ ws
plain-emit (s64 z) ws = four _ _ _ _ ws
plain-emit (f32 n) ws = two _ _ ws
plain-emit (f64 n) ws = four _ _ _ _ ws
plain-emit (p32 n) ws = two _ _ ws
plain-emit (ownership id) ws = raw _ ws

-- For any calls, with any arguments: the writes of commands without data are these.
pub plain-emit_all : (cs : List Call) → plain (emit_all cs) ≡ plain_of_all cs
unfolding emit_all
plain-emit_all [] = refl
plain-emit_all (c ∷ cs) =
    plain-emit c (emit_all cs) ∙ ap (λ (t : List (ℕ × ℕ)). plain_of c ++ t) (plain-emit_all cs)
