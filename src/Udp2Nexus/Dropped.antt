-- ===== src/Udp2Nexus/Dropped.antt =====
-- `parse_file` while no file is open: a log that goes on from the initial number 0xffff.
use trace_fs.Base.{
  ℕ, zero, suc, ◌+◌, ◌-◌, ◌^◌, ◌≤◌, ◌<◌, ◌≡◌, List, [], ◌∷◌, ◌++◌, Option, none, some, Bool, true,
  false, length, get_or, ◌<<<◌, drop, u16, u32, ◌==◌, ltb, leb, if◌then◌else◌, arith, refl, ap, ◌∙◌,
  Bool-cases, inl, inr, length-append, sym,
}
use mathlib.Core.List.{append-nil}
use trace_fs.Udp2Nexus.{
  whole, File, Globals, Status, more, finished, fault, close_stream, close_file, open_next,
  take_datagram, dump_to, fill, entries, parse_file,
}
use trace_fs.Udp2Nexus.Log.{
  Datagram, IsSound, AllSound, datagram_bytes, log_bytes, next_seqno, runs_from, files_from,
}
use trace_fs.Udp2Nexus.Entry.{closed_files, take_datagram-new, seqno_value, ==_self}
use trace_fs.Udp2Nexus.Split.{
  ending, returned, started, outcome, entries-nil, entries-entry, entries-log, outcome-parse_file,
  ==_eq, ==_neq,
}

module _ (can_open : ℕ → Bool) (opens : (i : ℕ) → can_open i ≡ true) where
  -- Without an open file a datagram with the expected number is not written.
  take_datagram-closed :
      (d : Datagram) (g : Globals)
      → IsSound d
      → g.stream ≡ none
      → g.seqno_exp ≡ d.seqno
      → take_datagram can_open whole (length (datagram_bytes d)) (fill (datagram_bytes d) g) ≡ (
        more,
        record g {
          buffer = datagram_bytes d ++ drop (length (datagram_bytes d)) g.buffer;
          seqno_exp = next_seqno d;
        },
      )
  unfolding take_datagram
  take_datagram-closed d g h e es =
      rw (seqno_value d.seqno h.seqno_lt, es, ==_self d.seqno)
        (ap
          (λ (o : Option File).
            dump_to can_open whole (length (datagram_bytes d)) o
              (fill (datagram_bytes d) (record g { seqno_exp = next_seqno d })))
          e)

  entries-closed :
      (ds : List Datagram) (fuel : ℕ) (g : Globals) (n : ℕ)
      → g.stream ≡ none
      → g.filecount ≡ n
      → AllSound ds
      → n + length ds < 2 ^ 32
      → length (log_bytes ds) < fuel
      → ending (entries can_open whole fuel g (log_bytes ds))
        ≡ some (finished, g.written ++ files_from (n + 1) (runs_from g.seqno_exp ds).1)
  unfolding ending close_stream runs_from
  entries-closed ds zero g n es ec sound small enough = elim enough [ ]
  entries-closed [] (suc fuel) g n es ec sound small enough =
      rw (entries-nil can_open opens fuel g, append-nil)
        (ap (λ (o : Option File). some (finished, (close_file o g).written)) es)
  entries-closed (d ∷ ds) (suc fuel) g n es ec (sd, sds) small enough =
      elim (Bool-cases (d.seqno == g.seqno_exp)) [
        | inl same ↦ rw same (
            ap ending (
              entries-entry can_open opens fuel g _ d (log_bytes ds) sd
                (take_datagram-closed d g sd es (sym (==_eq d.seqno g.seqno_exp same))))
            ∙ entries-closed ds fuel _ n es ec sds (omega arith) shorter)
        | inr other ↦ rw other (
            ap ending (entries-entry can_open opens fuel g _ d (log_bytes ds) sd (next_file other))
            ∙ entries-log can_open opens ds fuel _ (n + 1) d.payload refl refl sds (omega arith)
                shorter)
      ]
    where
      shorter : length (log_bytes ds) < fuel
      shorter = omega (arith, length-append d.payload (log_bytes ds))

      count : u32 (g.filecount + 1) ≡ n + 1
      count = omega (arith, ec)

      first_file : ℕ → Option File → Status × Globals
      first_file k o = (
        more,
        record g {
          buffer = datagram_bytes d ++ drop (length (datagram_bytes d)) g.buffer;
          seqno_exp = next_seqno d;
          filecount = k;
          stream = some (k, d.payload);
          written = g.written ++ closed_files o;
        },
      )

      next_file :
          (d.seqno == g.seqno_exp) ≡ false
          → take_datagram can_open whole (length (datagram_bytes d)) (fill (datagram_bytes d) g) ≡ (
            more,
            record g {
              buffer = datagram_bytes d ++ drop (length (datagram_bytes d)) g.buffer;
              seqno_exp = next_seqno d;
              filecount = n + 1;
              stream = some (n + 1, d.payload);
              written = g.written;
            },
          )
      next_file other =
          take_datagram-new can_open d sd g (==_neq d.seqno g.seqno_exp other) (opens _)
          ∙ ap (λ (k : ℕ). first_file k g.stream) count
          ∙ ap (first_file (n + 1)) es
          ∙ rw append-nil refl

  -- If every output file can be opened and written, then parsing a log of fewer than 2 ^ 32 sound datagrams
  -- ends, returns 0, and writes a file for each run of consecutive sequence numbers, numbered from
  -- 1, except for the datagrams at the front of the log that go on from 0xffff: they are dropped.
  pub parse_file-dropped :
      (ds : List Datagram) (g : Globals)
      → AllSound ds
      → length ds < 2 ^ 32
      → outcome (parse_file can_open whole g (some (log_bytes ds)))
        ≡ some (some true, finished, g.written ++ files_from 1 (runs_from 0xffff ds).1)
  parse_file-dropped ds g sound small =
      outcome-parse_file can_open opens g (log_bytes ds)
      ∙ ap returned (
          entries-closed ds (suc (length (log_bytes ds))) (started g) 0 refl refl sound
            (omega arith) (omega arith))

module _ (can_open : ℕ → Bool) (taken : File → ℕ → ℕ) (opens : (i : ℕ) → can_open i ≡ true) where
  dump_to-short :
      (dgramlen : ℕ) (f : File) (g : Globals)
      → dgramlen ≤ 2048
      → (dump_to can_open taken dgramlen (some f) g).0 ≡ (if ltb dgramlen 6 then fault else more)
  dump_to-short dgramlen (n, bytes) g h = elim (Bool-cases (ltb dgramlen 6)) [
    | inl short ↦ rw (short, leb-short short) refl
    | inr long ↦ rw (long, leb-long long) refl
  ]
    where
      leb-short : ltb dgramlen 6 ≡ true → leb (6 + u32 (dgramlen + 2 ^ 32 - 6)) 2048 ≡ false
      leb-short short = ground arith

      leb-long : ltb dgramlen 6 ≡ false → leb (6 + u32 (dgramlen + 2 ^ 32 - 6)) 2048 ≡ true
      leb-long long = ground (arith, h)

  dump_to-open :
      (dgramlen : ℕ) (f : File) (g x : Globals)
      → x.stream ≡ some f
      → dgramlen ≤ 2048
      → (dump_to can_open taken dgramlen x.stream g).0 ≡ (if ltb dgramlen 6 then fault else more)
  dump_to-open dgramlen f g x e h =
      ap (λ (o : Option File). (dump_to can_open taken dgramlen o g).0) e
      ∙ dump_to-short dgramlen f g h

  -- With a file open and every file openable, a datagram of at most 2048 bytes is taken without a
  -- fault exactly if it is at least six bytes long: the six bytes of header are subtracted from a
  -- shorter length without a test, and the write then runs behind the buffer.
  pub take_datagram-short :
      (dgramlen : ℕ) (g : Globals) (f : File)
      → g.stream ≡ some f
      → dgramlen ≤ 2048
      → (take_datagram can_open taken dgramlen g).0 ≡ (if ltb dgramlen 6 then fault else more)
  unfolding take_datagram close_stream open_next
  take_datagram-short dgramlen g f e h =
      let seqno = u16 ((get_or g.buffer 5 0 <<< 8) + get_or g.buffer 4 0) in
      elim (Bool-cases (seqno == g.seqno_exp)) [
        | inl same ↦
            rw same (dump_to-open dgramlen f (record g { seqno_exp = u16 (seqno + 1) }) g e h)
        | inr other ↦ rw other (
            dump_to-open dgramlen (u32 ((close_stream g).filecount + 1), [])
              (record (open_next can_open (close_stream g)) { seqno_exp = u16 (seqno + 1) })
              (open_next can_open (close_stream g))
              (rw (opens (u32 ((close_stream g).filecount + 1))) refl) h)
      ]
