-- ===== src/Udp2Nexus.antt =====
-- tools/udp2nexus/main.c: a log of UDP datagrams is split into binary files, a new one wherever the
-- sequence number does not go on. `Log` is the format of the log and what the files should be;
-- `Part` and `Cut` are about a log that is cut in the middle of an entry.
pub mod Log
pub mod Entry
pub mod Split
pub mod Dropped
pub mod Short
pub mod Ends
pub mod Part
pub mod Cut
pub mod Console
pub mod Accounts
pub mod Warnings
pub mod Reported
use trace_fs.Base.{
  ℕ, zero, suc, ◌+◌, ◌-◌, ◌*◌, ◌^◌, List, [], ◌∷◌, ◌++◌, Option, none, some, Bool, true, false,
  length, take, drop, get_or, replicate, u16, u32, ◌<<<◌, ltb, leb, ◌==◌, if◌then◌else◌,
}

abbrev pub dgram_max : ℕ
dgram_max = 2048

-- A file by the number in its name, with what was written to it.
abbrev pub File : Type 0
File = ℕ × List ℕ

-- The globals; `stream` is the open file, and `written` are the closed ones, oldest first.
pub record Globals : Type 0 where
  pub buffer : List ℕ
  pub seqno_exp : ℕ
  pub stream : Option File
  pub filecount : ℕ
  pub written : List File

-- What `next_entry` returns: 1, 0 and -1. `fault` is an access behind the end of the buffer.
pub data Status : Type 0 where
  more finished failed fault : Status

-- `fread` of one 32-bit item, on a little-endian host: too few bytes are consumed and not counted.
abbrev pub read_u32 : List ℕ → Option ℕ × List ℕ
read_u32 (a ∷ b ∷ c ∷ d ∷ rest) = (some (a + b * 2 ^ 8 + c * 2 ^ 16 + d * 2 ^ 24), rest)
read_u32 (a ∷ b ∷ c ∷ []) = (none, [])
read_u32 (a ∷ b ∷ []) = (none, [])
read_u32 (a ∷ []) = (none, [])
read_u32 [] = (none, [])

-- The number of items that a read counted.
abbrev pub counted : Option ℕ → ℕ
counted none = 0
counted (some n) = 1

abbrev pub close_file : Option File → Globals → Globals
close_file none g = g
close_file (some f) g = record g { stream = none; written = g.written ++ (f ∷ []) }

-- `if (_glblstream != NULL) { fclose(_glblstream); _glblstream = NULL; }`
unfoldable pub close_stream : Globals → Globals
close_stream g = close_file g.stream g

-- The datagram's bytes go over the front of the buffer.
abbrev pub fill : List ℕ → Globals → Globals
fill bytes g = record g { buffer = bytes ++ drop (length bytes) g.buffer }

-- An `fwrite` that takes all that it is given.
abbrev pub whole : File → ℕ → ℕ
whole f size = size

-- What a status makes `parse_file` return: `none` where C leaves the run undefined.
abbrev pub returns : Status → Option Bool
returns more = some true
returns finished = some true
returns failed = some true
returns fault = none

-- Behind the loop the stream is closed; behind an undefined access there is nothing to say.
abbrev pub finish : Status × Globals → Option Bool × Status × Globals
finish (more, g) = (returns more, more, close_stream g)
finish (finished, g) = (returns finished, finished, close_stream g)
finish (failed, g) = (returns failed, failed, close_stream g)
finish (fault, g) = (returns fault, fault, g)

-- The host decides whether `fopen` succeeds on the file of a number, and how many of the bytes that
-- it is given `fwrite` takes, from what the file holds already.
module _ (can_open : ℕ → Bool) where
  unfoldable pub open_next : Globals → Globals
  open_next g =
      let n = u32 (g.filecount + 1) in
      record g { filecount = n; stream = if can_open n then some (n, []) else none }

module _ (can_open : ℕ → Bool) (taken : File → ℕ → ℕ) where
  -- `fwrite((void*)(_glblBuffer + 6), 1, dgramlen-6, _glblstream)`, if there is a stream: a fault if it
  -- is to read behind the buffer, and otherwise the file gets the bytes that are taken.
  abbrev pub dump_to : ℕ → Option File → Globals → Status × Globals
  dump_to dgramlen none g = (more, g)
  dump_to dgramlen (some (n, bytes)) g =
      let size = u32 (dgramlen + 2 ^ 32 - 6) in
      if leb (6 + size) dgram_max
      then (
        more,
        record g { stream = some (n, bytes ++ take (taken (n, bytes) size) (drop 6 g.buffer)) },
      )
      else (fault, g)

  -- The part of `next_entry` behind the last read.
  unfoldable pub take_datagram : ℕ → Globals → Status × Globals
  unfolding close_stream open_next
  take_datagram dgramlen g =
      let seqno = u16 ((get_or g.buffer 5 0 <<< 8) + get_or g.buffer 4 0) in
      let g = if seqno == g.seqno_exp then g else open_next can_open (close_stream g) in
      let g = record g { seqno_exp = u16 (seqno + 1) } in dump_to dgramlen g.stream g

  -- With the length known: the test against the buffer's size, and the read of the datagram.
  unfoldable pub read_datagram : ℕ → Globals → List ℕ → Status × Globals × List ℕ
  unfolding take_datagram
  read_datagram dgramlen g file =
      let bytes = take dgramlen file in
      let rest = drop dgramlen file in
      let g' = fill bytes g in
      let (status, g'') = take_datagram dgramlen g' in
      if ltb dgram_max dgramlen
      then (failed, g, file)
      else if ltb (length bytes) dgramlen
      then (failed, g', rest)
      else (status, g'', rest)

  abbrev pub with_length : Option ℕ → Globals → List ℕ → Status × Globals × List ℕ
  with_length none g file = (failed, g, file)
  with_length (some dgramlen) g file = read_datagram dgramlen g file

  unfoldable pub next_entry : Globals → List ℕ → Status × Globals × List ℕ
  unfolding read_datagram
  next_entry g file =
      let (tstamp_0, file) = read_u32 file in
      let (tstamp_1, file1) = read_u32 file in
      let (ip, file2) = read_u32 file1 in
      let (dgramlen, file3) = read_u32 file2 in
      let cnt = counted tstamp_0 + counted tstamp_1 + counted ip + counted dgramlen in
      if counted tstamp_0 == 0
      then (finished, g, file)
      else if ltb cnt 4
      then (failed, g, file3)
      else with_length dgramlen g file3

  -- `while (next_entry(fptr)>0);` on fuel; `none` if it ran out.
  unfoldable pub entries : ℕ → Globals → List ℕ → Option (Status × Globals)
  entries zero g file = none
  entries (suc fuel) g file =
      let (status, g', file') = next_entry g file in
      let rest = entries fuel g' file' in
      elim status [
        | more ↦ rest
        | finished ↦ some (finished, g')
        | failed ↦ some (failed, g')
        | fault ↦ some (fault, g')
      ]

  -- 0 or -1, or nothing behind an undefined access; how the loop ended; and the globals. Fuel of one more than the bytes of the log is
  -- enough, since an entry that is followed by another takes at least sixteen.
  unfoldable pub parse_file : Globals → Option (List ℕ) → Option (Option Bool × Status × Globals)
  unfolding entries
  parse_file g none =
      let g = record g { seqno_exp = 0xffff; stream = none; filecount = 0 } in
      some (some false, finished, g)
  parse_file g (some file) =
      let g = record g { seqno_exp = 0xffff; stream = none; filecount = 0 } in
      elim (entries (suc (length file)) g file) [ none ↦ none | some r ↦ some (finish r) ]

  -- The program on its argument count and on the contents of the file that the argument names.
  unfoldable pub main : ℕ → Globals → Option (List ℕ) → Option (Option Bool × Status × Globals)
  unfolding parse_file
  main argc g file = if ltb argc 2 then some (some false, finished, g) else parse_file g file
