-- ===== src/Udp2Nexus/Console.antt =====
-- What tools/udp2nexus/main.c prints: a line for each call of `printf`, with the values that are put
-- into it. The answers of the host and the globals are those of `Udp2Nexus`.
use trace_fs.Base.{
  ℕ, zero, suc, ◌+◌, ◌-◌, ◌*◌, ◌/◌, ◌%◌, ◌^◌, is_some, List, [], ◌∷◌, ◌++◌, Option, none, some,
  Bool, length, take, get_or, u16, u32, ◌<<<◌, ltb, leb, ◌==◌, if◌then◌else◌,
}
use trace_fs.Udp2Nexus.{
  dgram_max, File, Globals, more, finished, failed, fault, read_u32, counted, close_stream, fill,
  open_next, next_entry,
}

-- `exit_with` says whether the status is 0, or -1; `line_end` is the lone newline.
pub data Line : Type 0 where
  title no_argument usage parsing not_found : Line
  exit_with : Bool → Line
  partial_header : ℕ → Line
  too_large : Line
  partial_dgram : ℕ → Line
  boundary : Line
  from_ip : ℕ → ℕ → ℕ → ℕ → Line
  at_time : ℕ → ℕ → ℕ → ℕ → Line
  bytes_in : ℕ → Line
  seqno_is : ℕ → Line
  new_file : ℕ → Line
  line_end : Line
  dumped : ℕ → Line

-- `u8ptr[i]` of a 32-bit number.
abbrev pub byte_of : ℕ → ℕ → ℕ
byte_of i n = n / 2 ^ (8 * i) % 256

-- The value that was read, where it was.
abbrev pub value_of : Option ℕ → ℕ
value_of none = 0
value_of (some n) = n

abbrev pub header_lines : Option ℕ → Option ℕ → Option ℕ → ℕ → List Line
header_lines tstamp_0 tstamp_1 ip dgramlen =
    let t = value_of tstamp_0 in
    let a = value_of ip in
    boundary
    ∷ from_ip (byte_of 0 a) (byte_of 1 a) (byte_of 2 a) (byte_of 3 a)
    ∷ at_time (byte_of 1 t) (byte_of 2 t) (byte_of 3 t) (value_of tstamp_1)
    ∷ bytes_in dgramlen
    ∷ []

module _ (can_open : ℕ → Bool) (taken : File → ℕ → ℕ) where
  -- Behind `printf("\\n");`: what `fwrite` returns, or nothing without a stream, or where the write
  -- runs behind the buffer.
  abbrev pub dump_lines : ℕ → Option File → List Line
  dump_lines dgramlen none = []
  dump_lines dgramlen (some f) =
      let size = u32 (dgramlen + 2 ^ 32 - 6) in
      if leb (6 + size) dgram_max then dumped (taken f size) ∷ [] else []

  -- From `printf("--- Seqno %d", seqno);` on.
  unfoldable pub datagram_lines : ℕ → Globals → List Line
  datagram_lines dgramlen g =
      let seqno = u16 ((get_or g.buffer 5 0 <<< 8) + get_or g.buffer 4 0) in
      let g' = if seqno == g.seqno_exp then g else open_next can_open (close_stream g) in
      seqno_is seqno
      ∷ ((if seqno == g.seqno_exp then [] else new_file (u32 (g.filecount + 1)) ∷ [])
          ++ (line_end ∷ dump_lines dgramlen g'.stream))

  unfoldable pub read_lines : List Line → ℕ → Globals → List ℕ → List Line
  unfolding datagram_lines
  read_lines header dgramlen g file =
      let bytes = take dgramlen file in
      if ltb dgram_max dgramlen
      then too_large ∷ []
      else if ltb (length bytes) dgramlen
      then partial_dgram (length bytes) ∷ []
      else header ++ datagram_lines dgramlen (fill bytes g)

  abbrev pub length_lines : Option ℕ → Option ℕ → Option ℕ → Option ℕ → Globals → List ℕ → List Line
  length_lines tstamp_0 tstamp_1 ip none g file = []
  length_lines tstamp_0 tstamp_1 ip (some dgramlen) g file =
      read_lines (header_lines tstamp_0 tstamp_1 ip dgramlen) dgramlen g file

  unfoldable pub next_lines : Globals → List ℕ → List Line
  unfolding read_lines
  next_lines g file =
      let (tstamp_0, file) = read_u32 file in
      let (tstamp_1, file1) = read_u32 file in
      let (ip, file2) = read_u32 file1 in
      let (dgramlen, file3) = read_u32 file2 in
      let cnt = counted tstamp_0 + counted tstamp_1 + counted ip + counted dgramlen in
      if counted tstamp_0 == 0
      then []
      else if ltb cnt 4
      then partial_header cnt ∷ []
      else length_lines tstamp_0 tstamp_1 ip dgramlen g file3

  -- The loop, on the fuel of `entries`.
  unfoldable pub entries_lines : ℕ → Globals → List ℕ → List Line
  unfolding next_lines
  entries_lines zero g file = []
  entries_lines (suc fuel) g file =
      let (status, g', file') = next_entry can_open taken g file in
      let rest = entries_lines fuel g' file' in
      next_lines g file ++ elim status [ more ↦ rest | finished ↦ [] | failed ↦ [] | fault ↦ [] ]

  unfoldable pub parse_lines : Globals → Option (List ℕ) → List Line
  unfolding entries_lines
  parse_lines g none = parsing ∷ not_found ∷ []
  parse_lines g (some file) =
      let g = record g { seqno_exp = 0xffff; stream = none; filecount = 0 } in
      parsing ∷ entries_lines (suc (length file)) g file

  -- `file` is the log that the argument names.
  unfoldable pub main_lines : ℕ → Globals → Option (List ℕ) → List Line
  unfolding parse_lines
  main_lines argc g file =
      title
      ∷ (if ltb argc 2
          then no_argument ∷ usage ∷ []
          else parse_lines g file ++ (exit_with (is_some file) ∷ []))
