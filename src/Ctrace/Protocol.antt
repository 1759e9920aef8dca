-- ===== src/Ctrace/Protocol.antt =====
-- The receiving side of the data-transfer protocol, written from its description in
-- firmware/emsa5/hal/ctrace.h (lines 60 to 79) and not from the functions that send.
use trace_fs.Base.{
  ℕ, ◌+◌, ◌*◌, ◌/◌, ◌%◌, ◌^◌, List, [], ◌∷◌, ◌++◌, ◌==◌, ltb, leb, if◌then◌else◌, ◌||◌, ◌&&◌,
}
use trace_fs.Base.Int.{ℤ, signed_of}
use trace_fs.Ctrace.Register.{
  get_cmd, get_sink, get_direct_data, cmd_code, daq_direct_data, sink_code, sink_nexus,
}
use trace_fs.Ctrace.Emit.{CsrWrite, ctrace_act_cap_cmd_csr}

-- What a receiver is told: a number, an integer, a float's pattern or an address of a width in
-- bits, the id of the running task, or a sequence that does not fill its width.
pub data Message : Type 0 where
  uint_value : ℕ → ℕ → Message
  int_value : ℕ → ℤ → Message
  float_value : ℕ → ℕ → Message
  ptr_value : ℕ → ℕ → Message
  owner : ℕ → Message
  malformed : Message

-- The bits of the running sequence, and how many they are.
pub record Partial : Type 0 where
  pub got : ℕ
  pub acc : ℕ

abbrev pub idle : Partial
idle = record { got = 0; acc = 0 }

-- The type of a complete datum, from bits 5 and 4 of the indicator.
abbrev pub deliver : ℕ → ℕ → ℕ → Message
deliver type width acc =
    if type == 0
    then ptr_value width acc
    else if type == 1
    then int_value width (signed_of width acc)
    else if type == 2
    then uint_value width acc
    else float_value width acc

-- One direct-data word of 24 bits: bits 23 to 16 are the indicator, the rest is payload.
unfoldable pub take_datum : Partial → ℕ → Partial × List Message
take_datum p d =
    let indicator = d / 2 ^ 16 in
    let payload = d % 2 ^ 16 in
    let width = 8 * (indicator % 16) in
    let acc = p.acc + payload * 2 ^ p.got in
    let got = p.got + 16 in
    if indicator == 0
    then (p, [])
    else if leb 128 indicator
    then (p, owner payload ∷ [])
    else if leb 64 indicator
    then (record { got = got; acc = acc }, [])
    else if (ltb got width || leb (2 ^ width) acc)
    then (idle, malformed ∷ [])
    else (idle, deliver (indicator / 16 % 4) width acc ∷ [])

-- A write elsewhere, of another command or to another sink carries no data.
unfoldable pub take_write : Partial → CsrWrite → Partial × List Message
take_write p c =
    let is_data = get_cmd c.value == cmd_code daq_direct_data in
    let is_nexus = get_sink c.value == sink_code sink_nexus in
    if c.csr == ctrace_act_cap_cmd_csr && (is_data && is_nexus)
    then take_datum p (get_direct_data c.value)
    else (p, [])

unfoldable pub receive : Partial → List CsrWrite → List Message
receive p [] = []
receive p (c ∷ cs) = let (p', out) = take_write p c in out ++ receive p' cs
