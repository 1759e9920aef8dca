-- ===== src/Udp2Nexus/Cut.antt =====
-- A log whose last entry is cut, as where the logger was stopped or the disk was full.
use mathlib.Core.List.{append-nil}
use trace_fs.Base.{
  ℕ, suc, ◌-◌, ◌^◌, ◌<◌, ◌≡◌, ◌≢◌, ◌⊎◌, refl, sym, ap, ◌∙◌, arith, List, [], ◌∷◌, ◌++◌, Option,
  none, some, Bool, true, length, length-append, length-take, take, ltb, Bool-cases, inl, inr,
}
use trace_fs.Udp2Nexus.{
  whole, Status, more, finished, failed, fault, File, Globals, fill, close_file, close_stream,
  next_entry, entries, parse_file,
}
use trace_fs.Udp2Nexus.Log.{
  Datagram, IsSound, AllSound, datagram_bytes, entry_bytes, log_bytes, log_then, log_then-append,
  runs, files_from,
}
use trace_fs.Udp2Nexus.Entry.{take_datagram-new}
use trace_fs.Udp2Nexus.Part.{cut_status, header, take-append, next_entry-short, next_entry-part}
use trace_fs.Udp2Nexus.Split.{
  Ends, ending, outcome, returned, started, entries-entry, entries-log_then, outcome-parse_file,
}

module _ (can_open : ℕ → Bool) (opens : (i : ℕ) → can_open i ≡ true) where
  entries-stop :
      (fuel : ℕ) (g : Globals) (file : List ℕ) (status : Status)
      → status ≢ more
      → (next_entry can_open whole g file).0 ≡ status
      → entries can_open whole (suc fuel) g file
        ≡ some (status, (next_entry can_open whole g file).1)
  unfolding entries
  entries-stop fuel g file status ne e = ap by_status e ∙ at_end status ne
    where
      by_status : Status → Option (Status × Globals)
      by_status status =
          let (st, g', file') = next_entry can_open whole g file in
          elim status [
            | more ↦ entries can_open whole fuel g' file'
            | finished ↦ some (finished, g')
            | failed ↦ some (failed, g')
            | fault ↦ some (fault, g')
          ]

      at_end :
          (status : Status)
          → status ≢ more
          → by_status status ≡ some (status, (next_entry can_open whole g file).1)
      at_end more ne = absurd (ne refl)
      at_end finished ne = refl
      at_end failed ne = refl
      at_end fault ne = refl

  cut_status-ends : (k : ℕ) → cut_status k ≢ more
  cut_status-ends k e = elim (Bool-cases (ltb k 4)) [
    | inl few ↦ absurd (cc)
    | inr enough ↦ absurd (cc)
  ]

  returned-cut_status :
      (k : ℕ) (files : List File)
      → returned (some (cut_status k, files)) ≡ some (some true, cut_status k, files)
  returned-cut_status k files = elim (Bool-cases (ltb k 4)) [
    | inl few ↦ rw few refl
    | inr enough ↦ rw enough refl
  ]

  -- What is written does not depend on the buffer.
  written-fill :
      (bytes : List ℕ) (g : Globals)
      → (close_stream (fill bytes g)).written ≡ (close_stream g).written
  unfolding close_stream
  written-fill bytes g = by_stream g.stream
    where
      by_stream :
          (o : Option File) → (close_file o (fill bytes g)).written ≡ (close_file o g).written
      by_stream none = refl
      by_stream (some f) = refl

  -- The loop ends where an entry is cut, and the entry writes nothing.
  ends_at :
      (fuel : ℕ) (g : Globals) (tail bytes : List ℕ) (k : ℕ)
      → (next_entry can_open whole g tail).0 ≡ cut_status k
      → ((next_entry can_open whole g tail).1 ≡ g)
        ⊎ ((next_entry can_open whole g tail).1 ≡ fill bytes g)
      → ending (entries can_open whole (suc fuel) g tail)
        ≡ some (cut_status k, (close_stream g).written)
  unfolding ending
  ends_at fuel g tail bytes k e same =
      ap ending (entries-stop fuel g tail (cut_status k) (cut_status-ends k) e)
      ∙ ap (λ (files : List File). some (cut_status k, files)) (written same)
    where
      written :
          ((next_entry can_open whole g tail).1 ≡ g)
            ⊎ ((next_entry can_open whole g tail).1 ≡ fill bytes g)
          → (close_stream (next_entry can_open whole g tail).1).written ≡ (close_stream g).written
      written (inl e) = ap (λ (g : Globals). (close_stream g).written) e
      written (inr e) = ap (λ (g : Globals). (close_stream g).written) e ∙ written-fill bytes g

  -- At the first k bytes of a sound entry the loop ends.
  Ends-cut :
      (d : Datagram) (k : ℕ)
      → IsSound d
      → k < length (entry_bytes d)
      → Ends can_open opens (take k (entry_bytes d)) (cut_status k)
  Ends-cut d k h short fuel g = elim (Bool-cases (ltb k 16)) [
    | inl few ↦
        let tail = take k (entry_bytes d) in
        let size : length tail ≡ k = omega (arith, length-take k (entry_bytes d)) in
        let (status, same) = next_entry-short can_open g tail (ground (arith, size)) in
        ends_at fuel g tail [] k (status ∙ ap cut_status size) (inl same)
    | inr enough ↦
        let part = take (k - 16) (datagram_bytes d) in
        let (status, filled) =
          next_entry-part can_open d g part h
            (ground (arith, length-take (k - 16) (datagram_bytes d))) in
        ap (λ (file : List ℕ). ending (entries can_open whole (suc fuel) g file))
          (take-append k (k - 16) (header d) (datagram_bytes d) (ground arith))
        ∙ ends_at fuel g (header d ++ part) part k (status ∙ ground arith) (inr filled)
  ]

  -- If every output file can be opened and written, and a log of at least one and fewer than 2 ^ 32 sound datagrams,
  -- the first of them not numbered 0xffff, goes on with the first k bytes of one more sound entry,
  -- and not all of them: parsing ends and returns 0, the datagrams in front of the cut are in their
  -- files as if the log ended there, and of the cut entry nothing is written; the loop ends as at the
  -- end of the log if k < 4, and on an error otherwise.
  pub parse_file-cut :
      (d : Datagram) (ds : List Datagram) (last : Datagram) (k : ℕ) (g : Globals)
      → AllSound (d ∷ ds)
      → IsSound last
      → k < length (entry_bytes last)
      → d.seqno ≢ 0xffff
      → length (d ∷ ds) < 2 ^ 32
      → outcome
          (parse_file can_open whole g (some (log_bytes (d ∷ ds) ++ take k (entry_bytes last))))
        ≡ some (some true, cut_status k, g.written ++ files_from 1 (runs (d ∷ ds)))
  unfolding runs
  parse_file-cut d ds last k g (sd, sds) sl cut ne small =
      ap (λ (file : List ℕ). outcome (parse_file can_open whole g (some file)))
        (sym (log_then-append (d ∷ ds) tail))
      ∙ outcome-parse_file can_open opens g (log_then (d ∷ ds) tail)
      ∙ ap (λ (o : Option (Status × Globals)). returned (ending o))
          (entries-entry can_open opens (length (log_then (d ∷ ds) tail)) (started g) _ d
            (log_then ds tail) sd
            (take_datagram-new can_open d sd (started g) (λ e. ne (sym e)) (opens 1)))
      ∙ ap returned (
          entries-log_then can_open opens tail (cut_status k) ds (length (log_then (d ∷ ds) tail)) _
            1 d.payload (Ends-cut last k sl cut) refl refl sds (omega arith) shorter)
      ∙ returned-cut_status k _
      ∙ rw append-nil refl
    where
      tail : List ℕ
      tail = take k (entry_bytes last)

      shorter : length (log_bytes ds) < length (log_then (d ∷ ds) tail)
      shorter = omega (
        arith,
        ap length (log_then-append ds tail),
        length-append (log_bytes ds) tail,
        length-append d.payload (log_then ds tail),
      )
