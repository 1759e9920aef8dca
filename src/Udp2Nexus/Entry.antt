-- ===== src/Udp2Nexus/Entry.antt =====
-- `next_entry` on a sound entry of a log.
use mathlib.Core.List.{append-nil}
use trace_fs.Base.{
  ℕ, ◌+◌, ◌-◌, ◌*◌, ◌/◌, ◌%◌, ◌^◌, ◌≤◌, ◌<◌, ◌≡◌, List, [], ◌∷◌, ◌++◌, Option, none, some, Bool,
  true, false, ◌≢◌, sym, length, take, drop, u16, u32, ◌<<<◌, ltb, leb, ◌==◌, arith, refl, ap, ◌∙◌,
}
use trace_fs.Udp2Nexus.{
  whole, File, Globals, more, close_stream, close_file, open_next, dump_to, take_datagram, fill,
  read_datagram, next_entry,
}
use trace_fs.Udp2Nexus.Log.{Datagram, IsSound, datagram_bytes, entry_bytes, next_seqno}

take-append_length {ℓ} : {A : Type ℓ} (xs ys : List A) → take (length xs) (xs ++ ys) ≡ xs
take-append_length [] ys = refl
take-append_length {A} (x ∷ xs) ys = ap (λ (t : List A). x ∷ t) (take-append_length xs ys)

drop-append_length {ℓ} : {A : Type ℓ} (xs ys : List A) → drop (length xs) (xs ++ ys) ≡ ys
drop-append_length [] ys = refl
drop-append_length (x ∷ xs) ys = drop-append_length xs ys

pub word_value :
    (n : ℕ)
    → n < 2 ^ 32
    → n % 2 ^ 8 + n / 2 ^ 8 % 2 ^ 8 * 2 ^ 8 + n / 2 ^ 16 % 2 ^ 8 * 2 ^ 16 + n / 2 ^ 24 * 2 ^ 24 ≡ n
word_value n h = omega arith

module _ (can_open : ℕ → Bool) where
  read_datagram_sound :
      (g : Globals) (bytes rest : List ℕ)
      → length bytes ≤ 2048
      → read_datagram can_open whole (length bytes) g (bytes ++ rest)
        ≡ (let r = take_datagram can_open whole (length bytes) (fill bytes g) in (r.0, r.1, rest))
  unfolding read_datagram
  read_datagram_sound g bytes rest h = rw (
    take-append_length bytes rest,
    drop-append_length bytes rest,
    not_above h,
    not_below (length bytes),
  )
    where
      not_above : {n : ℕ} → n ≤ 2048 → ltb 2048 n ≡ false
      not_above h = ground arith

      not_below : (n : ℕ) → ltb n n ≡ false
      not_below n = ground arith

  -- A sound entry at the front of the log is read whole.
  pub next_entry_sound :
      (d : Datagram) (g : Globals) (rest : List ℕ)
      → IsSound d
      → next_entry can_open whole g (entry_bytes d ++ rest) ≡ (
          let r =
            take_datagram can_open whole (length (datagram_bytes d)) (fill (datagram_bytes d) g) in
          (r.0, r.1, rest))
  unfolding next_entry
  next_entry_sound d g rest h =
      ap (λ (n : ℕ). read_datagram can_open whole n g (datagram_bytes d ++ rest))
        (word_value (length (datagram_bytes d)) (omega (arith, h.payload_fits)))
      ∙ read_datagram_sound g (datagram_bytes d) rest (omega (arith, h.payload_fits))

pub seqno_value : (n : ℕ) → n < 2 ^ 16 → u16 (((n / 2 ^ 8) <<< 8) + n % 2 ^ 8) ≡ n
seqno_value n h = omega arith

-- What is written of a sound datagram is its payload, and nothing behind the buffer is read.
dump_size :
    (d : Datagram) → IsSound d → u32 (length (datagram_bytes d) + 2 ^ 32 - 6) ≡ length d.payload
dump_size d h = omega (arith, h.payload_fits)

leb-fits : (n : ℕ) → n + 6 ≤ 2048 → leb (6 + n) 2048 ≡ true
leb-fits n h = ground arith

pub ==_self : (n : ℕ) → (n == n) ≡ true
==_self n = ground arith

==_ne : (n m : ℕ) → n ≢ m → (n == m) ≡ false
==_ne n m h = ground arith

-- What closing adds to the written files.
abbrev pub closed_files : Option File → List File
closed_files none = []
closed_files (some f) = f ∷ []

module _ (can_open : ℕ → Bool) (d : Datagram) (h : IsSound d) where
  dump_to_sound :
      (n : ℕ) (bytes : List ℕ) (g : Globals)
      → dump_to can_open whole
          (length (datagram_bytes d))
          (some (n, bytes))
          (fill (datagram_bytes d) g)
        ≡ (
          more,
          record g {
            buffer = datagram_bytes d ++ drop (length (datagram_bytes d)) g.buffer;
            stream = some (n, bytes ++ d.payload);
          },
        )
  dump_to_sound n bytes g = rw (
    dump_size d h,
    leb-fits (length d.payload) (omega (arith, h.payload_fits)),
    take-append_length d.payload,
  )

  -- A datagram with the expected number goes to the open file.
  pub take_datagram-same :
      (n : ℕ) (bytes : List ℕ) (g : Globals)
      → g.stream ≡ some (n, bytes)
      → g.seqno_exp ≡ d.seqno
      → take_datagram can_open whole (length (datagram_bytes d)) (fill (datagram_bytes d) g) ≡ (
        more,
        record g {
          buffer = datagram_bytes d ++ drop (length (datagram_bytes d)) g.buffer;
          seqno_exp = next_seqno d;
          stream = some (n, bytes ++ d.payload);
        },
      )
  unfolding take_datagram
  take_datagram-same n bytes g e es =
      rw (seqno_value d.seqno h.seqno_lt, es, ==_self d.seqno)
        (ap
            (λ (o : Option File).
              dump_to can_open whole (length (datagram_bytes d)) o
                (fill (datagram_bytes d) (record g { seqno_exp = next_seqno d })))
            e
          ∙ dump_to_sound n bytes (record g { seqno_exp = next_seqno d }))

  -- The globals with a new empty file, its predecessor closed.
  abbrev reopened : List File → Globals → Globals
  reopened written g = record g {
    buffer = datagram_bytes d ++ drop (length (datagram_bytes d)) g.buffer;
    filecount = u32 (g.filecount + 1);
    stream = some (u32 (g.filecount + 1), []);
    written = written;
  }

  open_next-close :
      (g : Globals)
      → can_open (u32 (g.filecount + 1)) ≡ true
      → open_next can_open (close_stream (fill (datagram_bytes d) g))
        ≡ reopened (g.written ++ closed_files g.stream) g
  unfolding open_next close_stream
  open_next-close g opens = by_stream g.stream
    where
      by_stream :
          (o : Option File)
          → open_next can_open (close_file o (fill (datagram_bytes d) g))
            ≡ reopened (g.written ++ closed_files o) g
      by_stream none = rw (opens, append-nil)
      by_stream (some f) = rw opens

  -- Any other closes the open file, and starts the next one if it can be opened.
  pub take_datagram-new :
      (g : Globals)
      → g.seqno_exp ≢ d.seqno
      → can_open (u32 (g.filecount + 1)) ≡ true
      → take_datagram can_open whole (length (datagram_bytes d)) (fill (datagram_bytes d) g) ≡ (
        more,
        record g {
          buffer = datagram_bytes d ++ drop (length (datagram_bytes d)) g.buffer;
          seqno_exp = next_seqno d;
          filecount = u32 (g.filecount + 1);
          stream = some (u32 (g.filecount + 1), d.payload);
          written = g.written ++ closed_files g.stream;
        },
      )
  unfolding take_datagram
  take_datagram-new g ne opens =
      rw (seqno_value d.seqno h.seqno_lt, ==_ne d.seqno g.seqno_exp (λ e. ne (sym e)))
        (ap
            (λ (x : Globals).
              dump_to can_open whole (length (datagram_bytes d)) x.stream
                (record x { seqno_exp = next_seqno d }))
            (open_next-close g opens)
          ∙ dump_to_sound (u32 (g.filecount + 1)) []
              (record (reopened (g.written ++ closed_files g.stream) g) {
                seqno_exp = next_seqno d;
                buffer = g.buffer;
              }))
