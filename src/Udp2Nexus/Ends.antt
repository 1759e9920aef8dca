-- ===== src/Udp2Nexus/Ends.antt =====
-- The loop of the splitter ends on any file, whatever it contains, and where it does not end at an
-- undefined access the program returns.
use trace_fs.Base.{
  is_some, ℕ, zero, suc, ◌+◌, ◌*◌, ◌≤◌, ◌<◌, ◌≡◌, ◌≢◌, ◌⊎◌, inl, inr, refl, ap, arith, List, [],
  ◌∷◌, Option, none, some, Bool, true, false, ◌∙◌, length, length-drop,
}
use trace_fs.Udp2Nexus.Short.{has_short, entries-has_short}
use trace_fs.Udp2Nexus.{
  Status, more, finished, failed, fault, Globals, read_u32, counted, with_length, read_datagram,
  next_entry, entries, parse_file, close_stream, close_file, File, finish,
}

-- A read that counts takes four bytes, and no read gives any back.
read_u32-length :
    (file : List ℕ) → length (read_u32 file).1 + 4 * counted (read_u32 file).0 ≤ length file
read_u32-length [] = omega arith
read_u32-length (a ∷ []) = omega arith
read_u32-length (a ∷ b ∷ []) = omega arith
read_u32-length (a ∷ b ∷ c ∷ []) = omega arith
read_u32-length (a ∷ b ∷ c ∷ d ∷ rest) = omega arith

stream-close_file : (o : Option File) (g : Globals) → g.stream ≡ o → (close_file o g).stream ≡ none
stream-close_file none g e = e
stream-close_file (some f) g e = refl

stream-close_stream : (g : Globals) → (close_stream g).stream ≡ none
unfolding close_stream
stream-close_stream g = stream-close_file g.stream g refl

-- The log has an entry with a datagram of fewer than six bytes.
abbrev pub log_has_short : Option (List ℕ) → Bool
log_has_short none = false
log_has_short (some bytes) = has_short (suc (length bytes)) bytes

-- What is so of the result of `parse_file`: either the run has reached a write from behind the
-- buffer, and the log has a short datagram, or it has returned.
abbrev pub EndsWell : Option (List ℕ) → Option Bool × Status × Globals → Type 0
EndsWell file r =
    ((r.1 ≡ fault) × (r.0 ≡ none) × (log_has_short file ≡ true))
    ⊎ ((r.1 ≢ more) × (r.1 ≢ fault) × (r.0 ≡ some (is_some file)) × (r.2.stream ≡ none))

finish-EndsWell :
    (bytes : List ℕ) (status : Status) (g : Globals)
    → status ≢ more
    → (status ≡ fault → log_has_short (some bytes) ≡ true)
    → EndsWell (some bytes) (finish (status, g))
finish-EndsWell bytes more g ended short = absurd (ended refl)
finish-EndsWell bytes finished g ended short = inr (cc, cc, refl, stream-close_stream g)
finish-EndsWell bytes failed g ended short = inr (cc, cc, refl, stream-close_stream g)
finish-EndsWell bytes fault g ended short = inl (refl, refl, short refl)

module _ (can_open : ℕ → Bool) (taken : File → ℕ → ℕ) where
  length-read_datagram :
      (dgramlen : ℕ) (g : Globals) (file : List ℕ)
      → length (read_datagram can_open taken dgramlen g file).2 ≤ length file
  unfolding read_datagram
  length-read_datagram dgramlen g file = ground (arith, length-drop dgramlen file)

  length-with_length :
      (o : Option ℕ) (g : Globals) (file : List ℕ)
      → length (with_length can_open taken o g file).2 ≤ length file
  length-with_length none g file = omega arith
  length-with_length (some dgramlen) g file = length-read_datagram dgramlen g file

  -- An entry that is followed by another has taken bytes.
  length-next_entry :
      (g : Globals) (file : List ℕ)
      → (next_entry can_open taken g file).0 ≡ more
      → length (next_entry can_open taken g file).2 < length file
  unfolding next_entry
  length-next_entry g file e =
      let file1 = (read_u32 file).1 in
      let file2 = (read_u32 file1).1 in
      let file3 = (read_u32 file2).1 in
      let file4 = (read_u32 file3).1 in
      let last = length-with_length (read_u32 file3).0 g file4 in
      ground (
        arith,
        read_u32-length file,
        read_u32-length file1,
        read_u32-length file2,
        read_u32-length file3,
        last,
      )

  -- With fuel for one entry more than there are bytes the loop ends, and not behind an entry that is
  -- followed by another.
  entries-ends :
      (fuel : ℕ) (g : Globals) (file : List ℕ)
      → length file < fuel
      → (r : Status × Globals) × (entries can_open taken fuel g file ≡ some r) × (r.0 ≢ more)
  unfolding entries
  entries-ends zero g file h = absurd (omega arith)
  entries-ends (suc fuel) g file h =
      by_status
        (λ lt.
          entries-ends fuel (next_entry can_open taken g file).1
            (next_entry can_open taken g file).2 (omega (arith, lt)))
        (next_entry can_open taken g file).0 (length-next_entry g file)
    where
      by_status :
          (length (next_entry can_open taken g file).2 < length file
            → (r : Status × Globals) × (entries can_open taken fuel
                  (next_entry can_open taken g file).1
                  (next_entry can_open taken g file).2
                ≡ some r)
              × (r.0 ≢ more))
          → (status : Status)
          → (status ≡ more → length (next_entry can_open taken g file).2 < length file)
          → (r : Status × Globals) × (elim status [
            | more ↦
                entries can_open taken fuel
                  (next_entry can_open taken g file).1
                  (next_entry can_open taken g file).2
            | finished ↦ some (finished, (next_entry can_open taken g file).1)
            | failed ↦ some (failed, (next_entry can_open taken g file).1)
            | fault ↦ some (fault, (next_entry can_open taken g file).1)
          ]
              ≡ some r)
            × (r.0 ≢ more)
      by_status further more shorter = further (shorter refl)
      by_status further finished shorter =
          ((finished, (next_entry can_open taken g file).1), refl, cc)
      by_status further failed shorter = ((failed, (next_entry can_open taken g file).1), refl, cc)
      by_status further fault shorter = ((fault, (next_entry can_open taken g file).1), refl, cc)

  -- For any globals, any log, a missing one included, and any answers of the host: the loop comes to
  -- an end, and either at an access behind the end of the buffer, which C leaves undefined and which
  -- only a log with an entry of a datagram of fewer than six bytes comes to, or behind no entry that is
  -- followed by another; then the program returns 0 exactly if the log could be opened, also where the
  -- loop ended on an error, and leaves no output file open.
  pub parse_file-ends :
      (g : Globals) (file : Option (List ℕ))
      → (r : Option Bool × Status × Globals) × (parse_file can_open taken g file ≡ some r)
        × EndsWell file r
  unfolding parse_file
  parse_file-ends g none = (_, refl, inr (cc, cc, refl, refl))
  parse_file-ends g (some file) =
      let (r, e, ended) =
        entries-ends (suc (length file))
          (record g { seqno_exp = 0xffff; stream = none; filecount = 0 }) file (omega arith) in
      (
        finish r,
        ap (λ (o : Option (Status × Globals)). elim o [ none ↦ none | some r ↦ some (finish r) ]) e,
        finish-EndsWell file r.0 r.1 ended (λ p.
            entries-has_short can_open taken (suc (length file))
              (record g { seqno_exp = 0xffff; stream = none; filecount = 0 }) r.1 file
              (e ∙ ap (λ (status : Status). some (status, r.1)) p)),
      )
