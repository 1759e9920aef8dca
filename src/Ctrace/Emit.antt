-- ===== src/Ctrace/Emit.antt =====
-- firmware/emsa5/hal/ctrace.h: each function yields the CSR writes that it makes, in order.
-- A parameter of an unsigned type is a number below 2 ^ width, one of a signed type an integer in
-- range; a `float` or `double` is its bit pattern and a pointer its 32-bit address, which is what
-- the unions of the source convert them to.
use trace_fs.Base.{ℕ, bit_and, bit_or, List, [], ◌∷◌, ◌++◌, u16, ◌<<<◌, ◌>>>◌}
use trace_fs.Base.Int.{ℤ, pattern_of, shift_right_ℤ}
use trace_fs.Ctrace.Register.{
  cmd_code, none_, daq_pc_curr, daq_direct_data, cf_sync, sink_code, sink_nexus, cmd_pos, cmd_msk,
  sink_pos, sink_msk, directdata_pos, directdata_msk,
}

-- One `csrw` instruction.
pub record CsrWrite : Type 0 where
  pub csr : ℕ
  pub value : ℕ

abbrev pub csr_write : ℕ → ℕ → List CsrWrite
csr_write csr rs = record { csr = csr; value = rs } ∷ []

abbrev pub ctrace_act_cap_cmd_csr : ℕ
ctrace_act_cap_cmd_csr = 0xb10

unfoldable pub build_command_word : ℕ → ℕ → ℕ → ℕ
build_command_word command sink dat =
    let _command = bit_and (command <<< cmd_pos) cmd_msk in
    let _sink = bit_and (sink <<< sink_pos) sink_msk in
    let _data = bit_and (dat <<< directdata_pos) directdata_msk in
    bit_or (bit_or _data _sink) _command

unfoldable pub emit_marker : ℕ → List CsrWrite
emit_marker tag =
    let w = build_command_word (cmd_code daq_pc_curr) (sink_code sink_nexus) tag in
    csr_write ctrace_act_cap_cmd_csr w

unfoldable pub emit_pc : List CsrWrite
emit_pc =
    csr_write ctrace_act_cap_cmd_csr
      (bit_or (cmd_code daq_pc_curr <<< cmd_pos) (sink_code sink_nexus <<< sink_pos))

unfoldable pub emit_nop : List CsrWrite
emit_nop =
    csr_write ctrace_act_cap_cmd_csr
      (bit_or (cmd_code none_ <<< cmd_pos) (sink_code sink_nexus <<< sink_pos))

unfoldable pub emit_sync : List CsrWrite
emit_sync =
    csr_write ctrace_act_cap_cmd_csr
      (bit_or (cmd_code cf_sync <<< cmd_pos) (sink_code sink_nexus <<< sink_pos))

unfoldable pub emit_data_raw : ℕ → List CsrWrite
emit_data_raw dat =
    let w = build_command_word (cmd_code daq_direct_data) (sink_code sink_nexus) dat in
    csr_write ctrace_act_cap_cmd_csr w

-- The markers of the data-transfer protocol.
abbrev pub width_mask : ℕ
width_mask = 0x0f0000

abbrev pub type_mask : ℕ
type_mask = 0x300000

abbrev pub sequence_mask : ℕ
sequence_mask = 0x400000

abbrev pub ownership_mask : ℕ
ownership_mask = 0x800000

abbrev pub marker_8bit : ℕ
marker_8bit = bit_and (0x01 <<< 16) width_mask

abbrev pub marker_16bit : ℕ
marker_16bit = bit_and (0x02 <<< 16) width_mask

abbrev pub marker_32bit : ℕ
marker_32bit = bit_and (0x04 <<< 16) width_mask

abbrev pub marker_64bit : ℕ
marker_64bit = bit_and (0x08 <<< 16) width_mask

abbrev pub ptr_marker : ℕ
ptr_marker = bit_and (0x00 <<< 16) type_mask

abbrev pub int_marker : ℕ
int_marker = bit_and (0x10 <<< 16) type_mask

abbrev pub uint_marker : ℕ
uint_marker = bit_and (0x20 <<< 16) type_mask

abbrev pub float_marker : ℕ
float_marker = bit_and (0x30 <<< 16) type_mask

abbrev pub seq_end_marker : ℕ
seq_end_marker = bit_and (0x00 <<< 16) sequence_mask

abbrev pub seq_continue_marker : ℕ
seq_continue_marker = bit_and (0x40 <<< 16) sequence_mask

abbrev pub ownership_marker : ℕ
ownership_marker = bit_and (0x80 <<< 16) ownership_mask

-- `SEQ | TYPE | WIDTH | payload`, the argument of every `emit_data_raw` of typed data.
abbrev pub tagged : ℕ → ℕ → ℕ → ℕ → ℕ
tagged seq type width payload = bit_or (bit_or (bit_or seq type) width) payload

-- `(uint16_t)((data >> k) & 0xffff)` of unsigned and of signed data.
abbrev pub word_at : ℕ → ℕ → ℕ
word_at k dat = u16 (bit_and (dat >>> k) 0xffff)

-- The integer promotions make the signed operand an `int` (w = 32) or an `int64_t` (w = 64).
abbrev pub signed_word_at : ℕ → ℕ → ℤ → ℕ
signed_word_at w k dat = u16 (bit_and (pattern_of w (shift_right_ℤ dat k)) 0xffff)

unfoldable pub emit_data_u8 : ℕ → List CsrWrite
emit_data_u8 dat = emit_data_raw (tagged seq_end_marker uint_marker marker_8bit dat)

unfoldable pub emit_data_u16 : ℕ → List CsrWrite
emit_data_u16 dat = emit_data_raw (tagged seq_end_marker uint_marker marker_16bit dat)

-- The two writes that `u32`, `s32`, `f32` and `p32` share, and the four of the 64-bit types.
abbrev pub emit_two : ℕ → ℕ → ℕ → List CsrWrite
emit_two type word0 word1 =
    emit_data_raw (tagged seq_continue_marker type marker_32bit word0)
    ++ emit_data_raw (tagged seq_end_marker type marker_32bit word1)

abbrev pub emit_four : ℕ → ℕ → ℕ → ℕ → ℕ → List CsrWrite
emit_four type word0 word1 word2 word3 =
    emit_data_raw (tagged seq_continue_marker type marker_64bit word0)
    ++ (emit_data_raw (tagged seq_continue_marker type marker_64bit word1)
        ++ (emit_data_raw (tagged seq_continue_marker type marker_64bit word2)
            ++ emit_data_raw (tagged seq_end_marker type marker_64bit word3)))

unfoldable pub emit_data_u32 : ℕ → List CsrWrite
emit_data_u32 dat = emit_two uint_marker (word_at 0 dat) (word_at 16 dat)

unfoldable pub emit_data_u64 : ℕ → List CsrWrite
emit_data_u64 dat =
    emit_four uint_marker (word_at 0 dat) (word_at 16 dat) (word_at 32 dat) (word_at 48 dat)

unfoldable pub emit_data_s8 : ℤ → List CsrWrite
emit_data_s8 dat = emit_data_raw (tagged seq_end_marker int_marker marker_8bit (pattern_of 8 dat))

unfoldable pub emit_data_s16 : ℤ → List CsrWrite
emit_data_s16 dat =
    emit_data_raw (tagged seq_end_marker int_marker marker_16bit (pattern_of 16 dat))

unfoldable pub emit_data_s32 : ℤ → List CsrWrite
emit_data_s32 dat = emit_two int_marker (signed_word_at 32 0 dat) (signed_word_at 32 16 dat)

unfoldable pub emit_data_s64 : ℤ → List CsrWrite
emit_data_s64 dat =
    emit_four int_marker (signed_word_at 64 0 dat) (signed_word_at 64 16 dat)
      (signed_word_at 64 32 dat) (signed_word_at 64 48 dat)

unfoldable pub emit_data_f32 : ℕ → List CsrWrite
emit_data_f32 convert = emit_two float_marker (word_at 0 convert) (word_at 16 convert)

unfoldable pub emit_data_f64 : ℕ → List CsrWrite
emit_data_f64 convert =
    emit_four float_marker (word_at 0 convert) (word_at 16 convert) (word_at 32 convert)
      (word_at 48 convert)

unfoldable pub emit_data_p32 : ℕ → List CsrWrite
emit_data_p32 convert = emit_two ptr_marker (word_at 0 convert) (word_at 16 convert)

unfoldable pub add_trace_point : List CsrWrite
add_trace_point = emit_sync

unfoldable pub ownership_trace : ℕ → List CsrWrite
ownership_trace id = emit_data_raw (bit_or ownership_marker id)
