-- ===== src/Ctrace/Register.antt =====
-- firmware/emsa5/hal/ct_csr.h: the ACT-CAP/ST command register. A register is the 32-bit word of
-- the union; a bit-field access reads or replaces the bits that the header's layout comment gives
-- (the first field lowest). `unsigned long` has 32 bits on the target.
use trace_fs.Base.{ℕ, ◌+◌, ◌*◌, ◌/◌, ◌%◌, ◌^◌, bit_and, bit_or, ◌<<<◌, bit_not}

pub data Cmd : Type 0 where
  none_ daq_pc_curr daq_pc_curr_last daq_direct_data daq_data daq_daddr daq_data_daddr : Cmd
  daq_ifetch_th daq_data_rd_th daq_data_wr daq_data_rd cf_sync te : Cmd

-- The values of `ct_csr_trActCapStCmd_Cmd_e`; 7 is not used.
abbrev pub cmd_code : Cmd → ℕ
cmd_code none_ = 0
cmd_code daq_pc_curr = 1
cmd_code daq_pc_curr_last = 2
cmd_code daq_direct_data = 3
cmd_code daq_data = 4
cmd_code daq_daddr = 5
cmd_code daq_data_daddr = 6
cmd_code daq_ifetch_th = 8
cmd_code daq_data_rd_th = 9
cmd_code daq_data_wr = 10
cmd_code daq_data_rd = 11
cmd_code cf_sync = 12
cmd_code te = 13

pub data Sink : Type 0 where
  sink_nexus sink_axis sink_axis_nexus sink_te : Sink

abbrev pub sink_code : Sink → ℕ
sink_code sink_nexus = 0
sink_code sink_axis = 1
sink_code sink_axis_nexus = 2
sink_code sink_te = 3

abbrev pub cmd_pos : ℕ
cmd_pos = 0

abbrev pub cmd_msk : ℕ
cmd_msk = 0x3f <<< cmd_pos

abbrev pub sink_pos : ℕ
sink_pos = 6

abbrev pub sink_msk : ℕ
sink_msk = 0x3 <<< sink_pos

abbrev pub directdata_pos : ℕ
directdata_pos = 8

abbrev pub directdata_msk : ℕ
directdata_msk = 0xffffff <<< directdata_pos

-- The bit-fields of `CT_CSR_trActCapStCmd_Type`: `uint32_t Cmd: 6; Sink: 2; DirectData: 24`.
abbrev pub get_cmd : ℕ → ℕ
get_cmd w = w % 2 ^ 6

abbrev pub get_sink : ℕ → ℕ
get_sink w = w / 2 ^ 6 % 2 ^ 2

abbrev pub get_direct_data : ℕ → ℕ
get_direct_data w = w / 2 ^ 8 % 2 ^ 24

-- A store to a bit-field keeps the low bits of the value and the other fields.
unfoldable pub set_cmd : ℕ → ℕ → ℕ
set_cmd w val = w / 2 ^ 6 * 2 ^ 6 + val % 2 ^ 6

unfoldable pub set_sink : ℕ → ℕ → ℕ
set_sink w val = w / 2 ^ 8 * 2 ^ 8 + val % 2 ^ 2 * 2 ^ 6 + w % 2 ^ 6

unfoldable pub set_direct_data : ℕ → ℕ → ℕ
set_direct_data w val = val % 2 ^ 24 * 2 ^ 8 + w % 2 ^ 8

-- The helper macros, over the value of `REG`.
unfoldable pub set_bit : ℕ → ℕ → ℕ
set_bit reg msk = bit_or reg msk

unfoldable pub clear_bit : ℕ → ℕ → ℕ
clear_bit reg msk = bit_and reg (bit_not msk)

unfoldable pub read_bit : ℕ → ℕ → ℕ
read_bit reg msk = bit_and reg msk

unfoldable pub modify_reg : ℕ → ℕ → ℕ → ℕ
modify_reg reg msk val = bit_or (bit_and reg (bit_not msk)) (bit_and val msk)
