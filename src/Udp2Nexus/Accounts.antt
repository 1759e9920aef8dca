-- ===== src/Udp2Nexus/Accounts.antt =====
-- What the splitter prints, against the files that it writes.
use trace_fs.Base.{
  ℕ, ◌+◌, ◌-◌, ◌^◌, ◌%◌, ◌≡◌, ◌<◌, ◌≤◌, refl, ap, ◌∙◌, sym, arith, inl, inr, List, [], ◌∷◌, ◌++◌,
  Option, none, some, Bool, true, Bool-cases, length, take, drop, get_or, length-append,
  length-take, length-drop, u16, u32, ◌<<<◌, leb, ◌==◌,
}
use trace_fs.Udp2Nexus.{
  dgram_max, File, Globals, Status, more, finished, failed, fault, close_file, close_stream,
  open_next, dump_to, take_datagram,
}
use trace_fs.Udp2Nexus.Console.{
  Line, seqno_is, line_end, dumped, new_file, partial_header, too_large, partial_dgram, dump_lines,
  datagram_lines,
}

-- A sum over the lines.
abbrev pub total : (Line → ℕ) → List Line → ℕ
total weight [] = 0
total weight (l ∷ ls) = weight l + total weight ls

pub total-append :
    (weight : Line → ℕ) (ls ms : List Line)
    → total weight (ls ++ ms) ≡ total weight ls + total weight ms
total-append weight [] ms = omega arith
total-append weight (l ∷ ls) ms = omega (arith, total-append weight ls ms)

abbrev pub bytes_told : Line → ℕ
bytes_told (dumped n) = n
bytes_told _ = 0

abbrev pub files_told : Line → ℕ
files_told (new_file n) = 1
files_told _ = 0

abbrev pub warnings_told : Line → ℕ
warnings_told (partial_header n) = 1
warnings_told too_large = 1
warnings_told (partial_dgram n) = 1
warnings_told _ = 0

-- The bytes in the files.
abbrev pub size_all : List File → ℕ
size_all [] = 0
size_all ((n, bytes) ∷ fs) = length bytes + size_all fs

abbrev pub size_open : Option File → ℕ
size_open none = 0
size_open (some (n, bytes)) = length bytes

size_all-append : (fs gs : List File) → size_all (fs ++ gs) ≡ size_all fs + size_all gs
size_all-append [] gs = omega arith
size_all-append ((n, bytes) ∷ fs) gs = omega (arith, size_all-append fs gs)

abbrev pub size_of : Globals → ℕ
size_of g = size_all g.written + size_open g.stream

abbrev pub failures : Status → ℕ
failures more = 0
failures finished = 0
failures failed = 1
failures fault = 0

-- The buffer has its size, and the number of files fits its type.
pub record IsSized (g : Globals) : Type 0 where
  pub buffer : length g.buffer ≡ dgram_max
  pub filecount : g.filecount < 2 ^ 32

-- The lines tell what has changed.
pub record Accounts (g : Globals) (ls : List Line) (status : Status) (g' : Globals) : Type 0 where
  pub sized : IsSized g'
  pub bytes : size_of g + total bytes_told ls ≡ size_of g'
  pub files : (g.filecount + total files_told ls) % 2 ^ 32 ≡ g'.filecount
  pub warnings : total warnings_told ls ≡ failures status

pub size_of-close_file :
    (o : Option File) (g : Globals) → g.stream ≡ o → size_of (close_file o g) ≡ size_of g
size_of-close_file none g e = refl
size_of-close_file (some (n, bytes)) g e =
    rw e (omega (arith, size_all-append g.written ((n, bytes) ∷ [])))

pub stream-close_file :
    (o : Option File) (g : Globals) → g.stream ≡ o → (close_file o g).stream ≡ none
stream-close_file none g e = e
stream-close_file (some f) g e = refl

pub rest-close_file :
    (o : Option File) (g : Globals)
    → ((close_file o g).buffer ≡ g.buffer) × ((close_file o g).filecount ≡ g.filecount)
rest-close_file none g = (refl, refl)
rest-close_file (some f) g = (refl, refl)

pub leb_le : (a b : ℕ) → leb a b ≡ true → a ≤ b
leb_le a b h = ground (arith, h)

module _ (can_open : ℕ → Bool) (taken : File → ℕ → ℕ)
    (fits : (f : File) (size : ℕ) → taken f size ≤ size) where
  size_of-open_next : (g : Globals) → g.stream ≡ none → size_of (open_next can_open g) ≡ size_of g
  unfolding open_next
  size_of-open_next g e = elim (Bool-cases (can_open (u32 (g.filecount + 1)))) [
    | inl opens ↦ rw (opens, e) refl
    | inr fails ↦ rw (fails, e) refl
  ]

  -- `fwrite` of the bytes behind the header of the buffer.
  dump_to-Accounts :
      (dgramlen : ℕ) (o : Option File) (g : Globals)
      → g.stream ≡ o
      → IsSized g
      → let (status, g') = dump_to can_open taken dgramlen o g in
        Accounts g (dump_lines can_open taken dgramlen o) status g'
  dump_to-Accounts dgramlen none g e sized = record {
    sized = sized;
    bytes = omega arith;
    files = omega (arith, sized.filecount);
    warnings = refl;
  }
  dump_to-Accounts dgramlen (some (n, bytes)) g e sized =
      let size = u32 (dgramlen + 2 ^ 32 - 6) in
      elim (Bool-cases (leb (6 + size) dgram_max)) [
        | inl within ↦ rw within (record {
          sized = record { buffer = sized.buffer; filecount = sized.filecount };
          bytes = rw e (
              omega (
                arith,
                length-append bytes (take (taken (n, bytes) size) (drop 6 g.buffer)),
                fits (n, bytes) size,
                length-take (taken (n, bytes) size) (drop 6 g.buffer),
                length-drop 6 g.buffer,
                sized.buffer,
                leb_le (6 + size) dgram_max within,
              ));
          files = omega (arith, sized.filecount);
          warnings = refl;
        })
        | inr behind ↦ rw behind (record {
          sized = sized;
          bytes = omega arith;
          files = omega (arith, sized.filecount);
          warnings = refl;
        })
      ]

  size_of-next_file : (g : Globals) → size_of (open_next can_open (close_stream g)) ≡ size_of g
  unfolding close_stream
  size_of-next_file g =
      size_of-open_next (close_stream g) (stream-close_file g.stream g refl)
      ∙ size_of-close_file g.stream g refl

  next_file-IsSized : (g : Globals) → IsSized g → IsSized (open_next can_open (close_stream g))
  unfolding open_next close_stream
  next_file-IsSized g sized = record {
    buffer = ap length (rest-close_file g.stream g).0 ∙ sized.buffer;
    filecount = omega arith;
  }

  filecount-next_file :
      (g : Globals) → (open_next can_open (close_stream g)).filecount ≡ (g.filecount + 1) % 2 ^ 32
  unfolding open_next close_stream
  filecount-next_file g = ap (λ (n : ℕ). (n + 1) % 2 ^ 32) (rest-close_file g.stream g).1

  -- Behind the test of the sequence number: with the lines of the dump, the lines account for it.
  dumped-Accounts :
      (dgramlen n : ℕ) (ls : List Line) (g g1 : Globals)
      → IsSized g1
      → size_of g1 ≡ size_of g
      → (g.filecount + total files_told ls) % 2 ^ 32 ≡ g1.filecount
      → total bytes_told ls ≡ 0
      → total warnings_told ls ≡ 0
      → let (status, g') =
          dump_to can_open taken dgramlen g1.stream (record g1 { seqno_exp = n }) in
        Accounts g (ls ++ dump_lines can_open taken dgramlen g1.stream) status g'
  dumped-Accounts dgramlen n ls g g1 sized same counted_so no_bytes no_warnings =
      let g2 = record g1 { seqno_exp = n } in
      let dump = dump_lines can_open taken dgramlen g1.stream in
      let a =
        dump_to-Accounts dgramlen g1.stream g2 refl
          (record { buffer = sized.buffer; filecount = sized.filecount }) in
      record {
        sized = a.sized;
        bytes = omega (arith, a.bytes, same, no_bytes, total-append bytes_told ls dump);
        files = omega (arith, a.files, counted_so, total-append files_told ls dump);
        warnings = omega (arith, a.warnings, no_warnings, total-append warnings_told ls dump);
      }

  pub take_datagram-Accounts :
      (dgramlen : ℕ) (g : Globals)
      → IsSized g
      → let (status, g') = take_datagram can_open taken dgramlen g in
        Accounts g (datagram_lines can_open taken dgramlen g) status g'
  unfolding take_datagram datagram_lines
  take_datagram-Accounts dgramlen g sized =
      let seqno = u16 ((get_or g.buffer 5 0 <<< 8) + get_or g.buffer 4 0) in
      elim (Bool-cases (seqno == g.seqno_exp)) [
        | inl next ↦ rw next (
            dumped-Accounts dgramlen (u16 (seqno + 1)) (seqno_is seqno ∷ line_end ∷ []) g g sized
              refl (omega (arith, sized.filecount)) refl refl)
        | inr new ↦ rw new (
            dumped-Accounts dgramlen (u16 (seqno + 1))
              (seqno_is seqno ∷ new_file (u32 (g.filecount + 1)) ∷ line_end ∷ []) g
              (open_next can_open (close_stream g)) (next_file-IsSized g sized)
              (size_of-next_file g) (sym (filecount-next_file g)) refl refl)
      ]
