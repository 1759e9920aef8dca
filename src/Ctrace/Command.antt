-- ===== src/Ctrace/Command.antt =====
-- The type of what firmware/emsa5/hal/ctrace.h writes: command words of 32 bits for one CSR.
use trace_fs.Base.{ℕ, ◌^◌, ◌<◌, ◌≡◌, refl, arith, List, [], ◌∷◌, ◌++◌}
use trace_fs.Ctrace.Register.{
  get_sink, cmd_code, daq_pc_curr, daq_direct_data, sink_code, sink_nexus,
}
use trace_fs.Ctrace.Word.{build_command_word_fields}
use trace_fs.Ctrace.Emit.{
  CsrWrite, ctrace_act_cap_cmd_csr, build_command_word, emit_marker, emit_pc, emit_nop, emit_sync,
  emit_data_raw, emit_data_u8, emit_data_u16, emit_data_u32, emit_data_u64, emit_data_s8,
  emit_data_s16, emit_data_s32, emit_data_s64, emit_data_f32, emit_data_f64, emit_data_p32,
  add_trace_point, ownership_trace,
}
use trace_fs.Ctrace.Call.{
  Call, marker, pc, nop, sync, trace_point, u8, u16, u32, u64, s8, s16, s32, s64, f32, f64, p32,
  ownership, emit, emit_all,
}

pub record IsCommand (w : CsrWrite) : Type 0 where
  pub csr : w.csr ≡ ctrace_act_cap_cmd_csr
  pub width : w.value < 2 ^ 32
  pub sink : get_sink w.value ≡ sink_code sink_nexus

abbrev pub AreCommands : List CsrWrite → Type 0
AreCommands [] = Unit
AreCommands (w ∷ ws) = IsCommand w × AreCommands ws

AreCommands-append :
    (ws vs : List CsrWrite) → AreCommands ws → AreCommands vs → AreCommands (ws ++ vs)
AreCommands-append [] vs h k = k
AreCommands-append (w ∷ ws) vs h k = (h.0, AreCommands-append ws vs h.1 k)

build_command_word-IsCommand :
    (command dat : ℕ)
    → IsCommand (record {
      csr = ctrace_act_cap_cmd_csr;
      value = build_command_word command (sink_code sink_nexus) dat;
    })
build_command_word-IsCommand command dat =
    let fields = build_command_word_fields command (sink_code sink_nexus) dat in
    record { csr = refl; width = fields.3; sink = omega (arith, fields.1) }

raw : (dat : ℕ) → AreCommands (emit_data_raw dat)
unfolding emit_data_raw
raw dat = (build_command_word-IsCommand (cmd_code daq_direct_data) dat, tt)

two : (d e : ℕ) → AreCommands (emit_data_raw d ++ emit_data_raw e)
two d e = AreCommands-append (emit_data_raw d) (emit_data_raw e) (raw d) (raw e)

four :
    (d e i j : ℕ)
    → AreCommands (emit_data_raw d ++ (emit_data_raw e ++ (emit_data_raw i ++ emit_data_raw j)))
four d e i j =
    AreCommands-append (emit_data_raw d) _ (raw d)
      (AreCommands-append (emit_data_raw e) _ (raw e) (two i j))

emit-AreCommands : (c : Call) → AreCommands (emit c)
unfolding emit emit_marker emit_pc emit_nop emit_sync add_trace_point emit_data_u8 emit_data_u16
    emit_data_u32 emit_data_u64 emit_data_s8 emit_data_s16 emit_data_s32 emit_data_s64 emit_data_f32
    emit_data_f64 emit_data_p32 ownership_trace
emit-AreCommands (marker tag) = (build_command_word-IsCommand (cmd_code daq_pc_curr) tag, tt)
emit-AreCommands pc = (record { csr = refl; width = omega arith; sink = refl }, tt)
emit-AreCommands nop = (record { csr = refl; width = omega arith; sink = refl }, tt)
emit-AreCommands sync = (record { csr = refl; width = omega arith; sink = refl }, tt)
emit-AreCommands trace_point = (record { csr = refl; width = omega arith; sink = refl }, tt)
emit-AreCommands (u8 n) = raw _
emit-AreCommands (u16 n) = raw _
emit-AreCommands (u32 n) = two _ _
emit-AreCommands (u64 n) = four _ _ _ _
emit-AreCommands (s8 z) = raw _
emit-AreCommands (s16 z) = raw _
emit-AreCommands (s32 z) = two _ _
emit-AreCommands (s64 z) = four _ _ _ _
emit-AreCommands (f32 n) = two _ _
emit-AreCommands (f64 n) = four _ _ _ _
emit-AreCommands (p32 n) = two _ _
emit-AreCommands (ownership id) = raw _

-- For any calls, with any arguments: every CSR write that they make is to the command register, with
-- a word of 32 bits whose sink is the trace output.
pub emit_all-AreCommands : (cs : List Call) → AreCommands (emit_all cs)
unfolding emit_all
emit_all-AreCommands [] = tt
emit_all-AreCommands (c ∷ cs) =
    AreCommands-append (emit c) (emit_all cs) (emit-AreCommands c) (emit_all-AreCommands cs)
