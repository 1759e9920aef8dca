-- ===== src/Udp2Nexus/Warnings.antt =====
-- The lines of an entry of the log, against what the entry changes.

use trace_fs.Base.{
  ℕ, ◌+◌, ◌≡◌, ◌≤◌, refl, arith, inl, inr, List, [], ◌∷◌, ◌++◌, Option, none, some, Bool, false,
  Bool-cases, length, take, drop, length-append, length-take, length-drop, ltb, ◌==◌,
}
use trace_fs.Udp2Nexus.{
  File, dgram_max, Globals, Status, failed, read_u32, counted, fill, read_datagram, with_length,
  next_entry,
}
use trace_fs.Udp2Nexus.Console.{
  Line, too_large, partial_dgram, partial_header, header_lines, read_lines, length_lines,
  next_lines,
}
use trace_fs.Udp2Nexus.Accounts.{
  bytes_told, files_told, warnings_told, size_of, IsSized, Accounts, take_datagram-Accounts,
}

-- A warning, behind which the entry is given up.
given_up :
    (g g' : Globals) (l : Line)
    → IsSized g'
    → size_of g ≡ size_of g'
    → g.filecount ≡ g'.filecount
    → bytes_told l ≡ 0
    → files_told l ≡ 0
    → warnings_told l ≡ 1
    → Accounts g (l ∷ []) failed g'
given_up g g' l sized same counted_so b f w = record {
  sized = sized;
  bytes = omega (arith, same, b);
  files = omega (arith, counted_so, f, sized.filecount);
  warnings = omega (arith, w);
}

fill-IsSized :
    (bytes : List ℕ) (g : Globals) → length bytes ≤ dgram_max → IsSized g → IsSized (fill bytes g)
fill-IsSized bytes g le sized = record {
  buffer = omega (
    arith,
    le,
    sized.buffer,
    length-append bytes (drop (length bytes) g.buffer),
    length-drop (length bytes) g.buffer,
  );
  filecount = sized.filecount;
}

ltb_ge : (a b : ℕ) → ltb a b ≡ false → b ≤ a
ltb_ge a b h = ground (arith, h)

headed :
    (tstamp_0 tstamp_1 ip : Option ℕ) (dgramlen : ℕ) (bytes : List ℕ) (g g' : Globals)
    (ls : List Line) (status : Status)
    → Accounts (fill bytes g) ls status g'
    → Accounts g (header_lines tstamp_0 tstamp_1 ip dgramlen ++ ls) status g'
headed tstamp_0 tstamp_1 ip dgramlen bytes g g' ls status a = record {
  sized = a.sized;
  bytes = omega (arith, a.bytes);
  files = omega (arith, a.files);
  warnings = omega (arith, a.warnings);
}

counted_le : (o : Option ℕ) → counted o ≤ 1
counted_le none = omega arith
counted_le (some n) = omega arith

module _ (can_open : ℕ → Bool) (taken : File → ℕ → ℕ)
    (fits : (f : File) (size : ℕ) → taken f size ≤ size) where
  read_datagram-Accounts :
      (tstamp_0 tstamp_1 ip : Option ℕ) (dgramlen : ℕ) (g : Globals) (file : List ℕ)
      → IsSized g
      → let (status, g', rest) = read_datagram can_open taken dgramlen g file in
        Accounts g
          (read_lines can_open taken (header_lines tstamp_0 tstamp_1 ip dgramlen) dgramlen g file)
          status
          g'
  unfolding read_datagram read_lines
  read_datagram-Accounts tstamp_0 tstamp_1 ip dgramlen g file sized =
      elim (Bool-cases (ltb dgram_max dgramlen)) [
        | inl large ↦ rw large (given_up g g too_large sized refl refl refl refl refl)
        | inr small ↦
            let bytes = take dgramlen file in
            let sized' =
              fill-IsSized bytes g
                (omega (arith, length-take dgramlen file, ltb_ge dgram_max dgramlen small)) sized in
            elim (Bool-cases (ltb (length bytes) dgramlen)) [
              | inl cut ↦
                  rw (small, cut)
                    (given_up g (fill bytes g) (partial_dgram (length bytes)) sized' refl refl refl
                      refl refl)
              | inr all_read ↦
                  rw (small, all_read)
                    (headed tstamp_0 tstamp_1 ip dgramlen bytes g _ _ _
                      (take_datagram-Accounts can_open taken fits dgramlen (fill bytes g) sized'))
            ]
      ]

  with_length-Accounts :
      (tstamp_0 tstamp_1 ip o : Option ℕ) (g : Globals) (file : List ℕ)
      → IsSized g
      → counted o ≡ 1
      → let (status, g', rest) = with_length can_open taken o g file in
        Accounts g (length_lines can_open taken tstamp_0 tstamp_1 ip o g file) status g'
  with_length-Accounts tstamp_0 tstamp_1 ip none g file sized e = absurd (omega (arith, e))
  with_length-Accounts tstamp_0 tstamp_1 ip (some dgramlen) g file sized e =
      read_datagram-Accounts tstamp_0 tstamp_1 ip dgramlen g file sized

  pub next_entry-Accounts :
      (g : Globals) (file : List ℕ)
      → IsSized g
      → let (status, g', rest) = next_entry can_open taken g file in
        Accounts g (next_lines can_open taken g file) status g'
  unfolding next_entry next_lines
  next_entry-Accounts g file sized =
      let t0 = (read_u32 file).0 in
      let file1 = (read_u32 file).1 in
      let t1 = (read_u32 file1).0 in
      let file2 = (read_u32 file1).1 in
      let ip = (read_u32 file2).0 in
      let file3 = (read_u32 file2).1 in
      let len = (read_u32 file3).0 in
      let cnt = counted t0 + counted t1 + counted ip + counted len in
      elim (Bool-cases (counted t0 == 0)) [
        | inl ended ↦ rw ended (record {
          sized = sized;
          bytes = omega arith;
          files = omega (arith, sized.filecount);
          warnings = refl;
        })
        | inr going ↦ elim (Bool-cases (ltb cnt 4)) [
          | inl few ↦
              rw (going, few) (given_up g g (partial_header cnt) sized refl refl refl refl refl)
          | inr all ↦
              rw (going, all)
                (with_length-Accounts t0 t1 ip len g (read_u32 file3).1 sized (
                  omega (
                    arith,
                    ltb_ge cnt 4 all,
                    counted_le t0,
                    counted_le t1,
                    counted_le ip,
                    counted_le len,
                  )))
        ]
      ]
