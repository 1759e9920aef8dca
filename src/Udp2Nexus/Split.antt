-- ===== src/Udp2Nexus/Split.antt =====
-- `parse_file` on a whole log of sound datagrams, against the runs of their sequence numbers.
use mathlib.Core.List.{append-nil, append_assoc}
use trace_fs.Base.{
  ℕ, zero, suc, ◌+◌, ◌^◌, ◌<◌, ◌≡◌, List, [], ◌∷◌, ◌++◌, Option, none, some, Bool, true, false, ◌≢◌,
  length, drop, u32, ◌==◌, arith, refl, ap, ◌∙◌, Bool-cases, inl, inr, length-append, sym,
}
use trace_fs.Udp2Nexus.{
  whole, finish, File, Globals, Status, more, finished, failed, fault, close_stream, close_file,
  take_datagram, fill, next_entry, entries, parse_file,
}
use trace_fs.Udp2Nexus.Log.{
  Datagram, IsSound, AllSound, entry_bytes, datagram_bytes, log_bytes, log_then, log_then-append,
  next_seqno, runs_from, runs, run_bytes, files_from,
}
use trace_fs.Udp2Nexus.Entry.{next_entry_sound, take_datagram-same, take_datagram-new, closed_files}

-- How the loop ended, with the files that are there once the open one is closed.
unfoldable pub ending : Option (Status × Globals) → Option (Status × List File)
unfolding close_stream
ending none = none
ending (some (status, g)) = some (status, (close_stream g).written)

-- What `parse_file` returns, how its loop ended and the files that it leaves; these are not told
-- where C leaves the run undefined.
abbrev pub outcome :
    Option (Option Bool × Status × Globals) → Option (Option Bool × Status × List File)
outcome none = none
outcome (some (some ok, status, g)) = some (some ok, status, g.written)
outcome (some (none, status, g)) = some (none, status, [])

-- What `parse_file` makes of the end of its loop.
abbrev pub returned : Option (Status × List File) → Option (Option Bool × Status × List File)
returned none = none
returned (some (more, files)) = some (some true, more, files)
returned (some (finished, files)) = some (some true, finished, files)
returned (some (failed, files)) = some (some true, failed, files)
returned (some (fault, files)) = some (none, fault, [])

abbrev pub started : Globals → Globals
started g = record g { seqno_exp = 0xffff; stream = none; filecount = 0 }

-- The files of an open file n that holds w, and of what `runs_from` says of the rest.
abbrev open_files : ℕ → List ℕ → List Datagram × List (List Datagram) → List File
open_files n w r = (n, w ++ run_bytes r.0) ∷ files_from (n + 1) r.1

pub ==_eq : (n m : ℕ) → (n == m) ≡ true → n ≡ m
==_eq n m e = ground arith

pub ==_neq : (n m : ℕ) → (n == m) ≡ false → m ≢ n
==_neq n m e = ground arith

module _ (can_open : ℕ → Bool) (opens : (i : ℕ) → can_open i ≡ true) where
  entries-more :
      (fuel : ℕ) (g g' : Globals) (file rest : List ℕ)
      → next_entry can_open whole g file ≡ (more, g', rest)
      → entries can_open whole (suc fuel) g file ≡ entries can_open whole fuel g' rest
  unfolding entries
  entries-more fuel g g' file rest e =
      ap
        (λ (r : Status × Globals × List ℕ). elim r.0 [
          | more ↦ entries can_open whole fuel r.1 r.2
          | finished ↦ some (finished, r.1)
          | failed ↦ some (failed, r.1)
          | fault ↦ some (fault, r.1)
        ])
        e

  pub entries-nil :
      (fuel : ℕ) (g : Globals) → entries can_open whole (suc fuel) g [] ≡ some (finished, g)
  unfolding entries next_entry
  entries-nil fuel g = refl

  -- One sound entry, when the part of `next_entry` behind the reads is known.
  pub entries-entry :
      (fuel : ℕ) (g g' : Globals) (d : Datagram) (rest : List ℕ)
      → IsSound d
      → take_datagram can_open whole (length (datagram_bytes d)) (fill (datagram_bytes d) g)
        ≡ (more, g')
      → entries can_open whole (suc fuel) g (entry_bytes d ++ rest)
        ≡ entries can_open whole fuel g' rest
  entries-entry fuel g g' d rest sd e =
      entries-more fuel g g' (entry_bytes d ++ rest) rest
        (next_entry_sound can_open d g rest sd ∙ ap (λ (r : Status × Globals). (r.0, r.1, rest)) e)

  ending_finished :
      (g : Globals) → ending (some (finished, g)) ≡ some (finished, (close_stream g).written)
  unfolding ending
  ending_finished g = refl

  -- The loop ends with this status at the front of these bytes, and writes none of them.
  abbrev pub Ends : List ℕ → Status → Type 0
  Ends tail status =
      (fuel : ℕ) (g : Globals)
      → ending (entries can_open whole (suc fuel) g tail) ≡ some (status, (close_stream g).written)

  -- From an open file on, in front of bytes at which the loop ends.
  pub entries-log_then :
      (tail : List ℕ) (status : Status) (ds : List Datagram) (fuel : ℕ) (g : Globals) (n : ℕ)
      (w : List ℕ)
      → Ends tail status
      → g.stream ≡ some (n, w)
      → g.filecount ≡ n
      → AllSound ds
      → n + length ds < 2 ^ 32
      → length (log_bytes ds) < fuel
      → ending (entries can_open whole fuel g (log_then ds tail))
        ≡ some (status, g.written ++ open_files n w (runs_from g.seqno_exp ds))
  unfolding close_stream runs_from ending
  entries-log_then tail status ds zero g n w ends es ec sound small enough = elim enough [ ]
  entries-log_then tail status [] (suc fuel) g n w ends es ec sound small enough =
      ends fuel g
      ∙ rw append-nil (ap (λ (o : Option File). some (status, (close_file o g).written)) es)
  entries-log_then tail status (d ∷ ds) (suc fuel) g n w ends es ec (sd, sds) small enough =
      elim (Bool-cases (d.seqno == g.seqno_exp)) [
        | inl same ↦ rw same (
            ap ending (
              entries-entry fuel g _ d (log_then ds tail) sd
                (take_datagram-same can_open d sd n w g es (sym (==_eq d.seqno g.seqno_exp same))))
            ∙ (entries-log_then tail status ds fuel _ n (w ++ d.payload) ends refl ec sds
                  (omega arith) shorter
                ∙ rw (append_assoc w d.payload) refl))
        | inr other ↦ rw other (
            ap ending (entries-entry fuel g _ d (log_then ds tail) sd (next_file other))
            ∙ (entries-log_then tail status ds fuel _ (n + 1) d.payload ends refl refl sds
                  (omega arith) shorter
                ∙ rw (append_assoc g.written, append-nil) refl))
      ]
    where
      shorter : length (log_bytes ds) < fuel
      shorter = omega (arith, length-append d.payload (log_bytes ds))

      count : u32 (g.filecount + 1) ≡ n + 1
      count = omega (arith, ec)

      next_file :
          (d.seqno == g.seqno_exp) ≡ false
          → take_datagram can_open whole (length (datagram_bytes d)) (fill (datagram_bytes d) g) ≡ (
            more,
            record g {
              buffer = datagram_bytes d ++ drop (length (datagram_bytes d)) g.buffer;
              seqno_exp = next_seqno d;
              filecount = n + 1;
              stream = some (n + 1, d.payload);
              written = g.written ++ ((n, w) ∷ []);
            },
          )
      next_file other =
          take_datagram-new can_open d sd g (==_neq d.seqno g.seqno_exp other) (opens _)
          ∙ ap
              (λ (k : ℕ). (
                more,
                record g {
                  buffer = datagram_bytes d ++ drop (length (datagram_bytes d)) g.buffer;
                  seqno_exp = next_seqno d;
                  filecount = k;
                  stream = some (k, d.payload);
                  written = g.written ++ closed_files g.stream;
                },
              ))
              count
          ∙ ap
              (λ (o : Option File). (
                more,
                record g {
                  buffer = datagram_bytes d ++ drop (length (datagram_bytes d)) g.buffer;
                  seqno_exp = next_seqno d;
                  filecount = n + 1;
                  stream = some (n + 1, d.payload);
                  written = g.written ++ closed_files o;
                },
              ))
              es

  -- From an open file on.
  pub entries-log :
      (ds : List Datagram) (fuel : ℕ) (g : Globals) (n : ℕ) (w : List ℕ)
      → g.stream ≡ some (n, w)
      → g.filecount ≡ n
      → AllSound ds
      → n + length ds < 2 ^ 32
      → length (log_bytes ds) < fuel
      → ending (entries can_open whole fuel g (log_bytes ds))
        ≡ some (finished, g.written ++ open_files n w (runs_from g.seqno_exp ds))
  entries-log ds fuel g n w es ec sound small enough =
      ap (λ (file : List ℕ). ending (entries can_open whole fuel g file))
        (sym (log_then-append ds [] ∙ append-nil (log_bytes ds)))
      ∙ entries-log_then [] finished ds fuel g n w
          (λ fuel g. ap ending (entries-nil fuel g) ∙ ending_finished g) es ec sound small enough

  pub outcome-parse_file :
      (g : Globals) (file : List ℕ)
      → outcome (parse_file can_open whole g (some file))
        ≡ returned (ending (entries can_open whole (suc (length file)) (started g) file))
  unfolding parse_file ending
  outcome-parse_file g file = by_loop (entries can_open whole (suc (length file)) (started g) file)
    where
      by_loop :
          (o : Option (Status × Globals))
          → outcome (elim o [ none ↦ none | some r ↦ some (finish r) ]) ≡ returned (ending o)
      by_loop none = refl
      by_loop (some (more, g')) = refl
      by_loop (some (finished, g')) = refl
      by_loop (some (failed, g')) = refl
      by_loop (some (fault, g')) = refl

  -- If every output file can be opened and written, and the log holds at least one and fewer than 2 ^ 32 sound
  -- datagrams, the first of them not numbered 0xffff, then parsing the log ends, returns 0, and
  -- adds exactly one file for each run of consecutive sequence numbers to those written before:
  -- the files are numbered from 1, and each holds the trace data of its run in order.
  pub parse_file-runs :
      (d : Datagram) (ds : List Datagram) (g : Globals)
      → AllSound (d ∷ ds)
      → d.seqno ≢ 0xffff
      → length (d ∷ ds) < 2 ^ 32
      → outcome (parse_file can_open whole g (some (log_bytes (d ∷ ds))))
        ≡ some (some true, finished, g.written ++ files_from 1 (runs (d ∷ ds)))
  unfolding runs
  parse_file-runs d ds g (sd, sds) ne small =
      outcome-parse_file g (log_bytes (d ∷ ds))
      ∙ ap (λ (o : Option (Status × Globals)). returned (ending o))
          (entries-entry (length (log_bytes (d ∷ ds))) (started g) _ d (log_bytes ds) sd
            (take_datagram-new can_open d sd (started g) (λ e. ne (sym e)) (opens 1)))
      ∙ ap returned (
          entries-log ds (length (log_bytes (d ∷ ds))) _ 1 d.payload refl refl sds (omega arith)
            shorter)
      ∙ rw append-nil refl
    where
      shorter : length (log_bytes ds) < length (log_bytes (d ∷ ds))
      shorter = omega (arith, length-append d.payload (log_bytes ds))
