-- ===== src/Ctrace/Word.antt =====
-- The command word as a sum of fields, and the register macros against the bit-fields.

use trace_fs.Base.{ℕ, ◌+◌, ◌-◌, ◌*◌, ◌/◌, ◌%◌, ◌^◌, ◌<◌, bit_and, bit_or, ◌<<<◌, bit_not}
use trace_fs.Base.{◌≡◌, arith, ◌∙◌}
use trace_fs.Bits.{bit_and_split, bit_and_ones, bit_or_field, bit_or_gap, bit_and-zero}
use trace_fs.Bits.Field.{bit_and_field}
use trace_fs.Ctrace.Register.{
  get_cmd, get_sink, get_direct_data, set_cmd, set_sink, set_direct_data, cmd_pos, cmd_msk,
  sink_pos, sink_msk, directdata_pos, directdata_msk, modify_reg,
}
use trace_fs.Ctrace.Emit.{build_command_word}

join_fields :
    (d s c : ℕ)
    → s < 4
    → c < 64
    → bit_or (bit_or (d * 2 ^ 8) (s * 2 ^ 6)) c ≡ d * 2 ^ 8 + s * 2 ^ 6 + c
join_fields d s c hs hc =
    rw (bit_or_field 8 d (s * 2 ^ 6) (omega arith), regroup) (bit_or_field 6 (d * 4 + s) c hc)
  where
    regroup : d * 2 ^ 8 + s * 2 ^ 6 ≡ (d * 4 + s) * 2 ^ 6
    regroup = omega arith

pub build_as_sum :
    (c s d : ℕ) → build_command_word c s d ≡ d % 2 ^ 24 * 2 ^ 8 + s % 2 ^ 2 * 2 ^ 6 + c % 2 ^ 6
unfolding build_command_word
build_as_sum c s d =
    rw
      (
        bit_and_field 6 0 (c <<< cmd_pos),
        bit_and_field 2 6 (s <<< sink_pos),
        bit_and_field 24 8 (d <<< directdata_pos),
      )
      (join_fields (d <<< directdata_pos / 2 ^ 8 % 2 ^ 24) (s <<< sink_pos / 2 ^ 6 % 2 ^ 2)
          (c <<< cmd_pos / 2 ^ 0 % 2 ^ 6 * 2 ^ 0) (omega arith) (omega arith)
        ∙ omega arith)

-- For any command, sink and data the word has their low 6, 2 and 24 bits as its fields, and
-- fits 32 bits.
pub build_command_word_fields :
    (command sink dat : ℕ)
    → let w = build_command_word command sink dat in
      (get_cmd w ≡ command % 2 ^ 6)
      × (get_sink w ≡ sink % 2 ^ 2)
      × (get_direct_data w ≡ dat % 2 ^ 24)
      × (w < 2 ^ 32)
build_command_word_fields command sink dat = omega (arith, build_as_sum command sink dat)

-- On a 32-bit register, MODIFY_REG with a field's mask and shifted value is the store to that
-- bit-field, for each of the three fields.
pub modify_reg-field :
    (reg val : ℕ)
    → reg < 2 ^ 32
    → (modify_reg reg cmd_msk (val <<< cmd_pos) ≡ set_cmd reg val)
      × (modify_reg reg sink_msk (val <<< sink_pos) ≡ set_sink reg val)
      × (modify_reg reg directdata_msk (val <<< directdata_pos) ≡ set_direct_data reg val)
unfolding modify_reg set_cmd set_sink set_direct_data
modify_reg-field reg val h = (
  rw (cleared_cmd, put_cmd)
      (bit_or_gap 6 0 (reg / 64) (val % 64) 0 (omega arith) (omega arith) ∙ omega arith),
  rw (cleared_sink, put_sink)
      (bit_or_gap 2 6 (reg / 256) (val % 4) (reg % 64) (omega arith) (omega arith) ∙ omega arith),
  rw (cleared_data, put_data)
      (bit_or_gap 24 8 0 (val % 2 ^ 24) (reg % 256) (omega arith) (omega arith) ∙ omega arith),
)
  where
    cleared_cmd : bit_and reg (bit_not cmd_msk) ≡ reg / 64 * 2 ^ 6 * 2 ^ 0 + 0
    cleared_cmd = omega (
      arith,
      bit_and_split 6 (2 ^ 26 - 1) 0 reg (omega arith),
      bit_and_ones 26 (reg / 2 ^ 6),
      bit_and-zero (reg % 2 ^ 6),
    )

    put_cmd : bit_and (val <<< cmd_pos) cmd_msk ≡ val % 64 * 2 ^ 0
    put_cmd = omega (arith, bit_and_field 6 0 (val <<< cmd_pos))

    cleared_sink : bit_and reg (bit_not sink_msk) ≡ reg / 256 * 2 ^ 2 * 2 ^ 6 + reg % 64
    cleared_sink = omega (
      arith,
      bit_and_split 8 (2 ^ 24 - 1) 63 reg (omega arith),
      bit_and_ones 24 (reg / 2 ^ 8),
      bit_and_ones 6 (reg % 2 ^ 8),
    )

    put_sink : bit_and (val <<< sink_pos) sink_msk ≡ val % 4 * 2 ^ 6
    put_sink = omega (arith, bit_and_field 2 6 (val <<< sink_pos))

    cleared_data : bit_and reg (bit_not directdata_msk) ≡ 0 * 2 ^ 24 * 2 ^ 8 + reg % 256
    cleared_data = omega (arith, bit_and_ones 8 reg)

    put_data : bit_and (val <<< directdata_pos) directdata_msk ≡ val % 2 ^ 24 * 2 ^ 8
    put_data = omega (arith, bit_and_field 24 8 (val <<< directdata_pos))
