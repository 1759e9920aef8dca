-- ===== src/Udp2Nexus/Log.antt =====
-- The log that tools/udplog/udplog.py writes, and the runs of datagrams with consecutive numbers.
use mathlib.Core.List.{append_assoc}
use trace_fs.Base.{
  ◌≡◌, refl, sym, ap, ◌∙◌, ℕ, ◌+◌, ◌/◌, ◌%◌, ◌^◌, ◌≤◌, ◌<◌, List, [], ◌∷◌, ◌++◌, length, u16, ◌==◌,
  if◌then◌else◌,
}

-- A datagram of the trace unit: four bytes that are not read here, the sequence number and the
-- trace data; with the two words of the time and the address that the log puts before it.
pub record Datagram : Type 0 where
  pub tstamp_0 : ℕ
  pub tstamp_1 : ℕ
  pub ip : ℕ
  pub head_0 : ℕ
  pub head_1 : ℕ
  pub head_2 : ℕ
  pub head_3 : ℕ
  pub seqno : ℕ
  pub payload : List ℕ

-- The fields fit their types, and the datagram fits the buffer of 2048 bytes.
pub record IsSound (d : Datagram) : Type 0 where
  pub tstamp_0_lt : d.tstamp_0 < 2 ^ 32
  pub tstamp_1_lt : d.tstamp_1 < 2 ^ 32
  pub ip_lt : d.ip < 2 ^ 32
  pub seqno_lt : d.seqno < 2 ^ 16
  pub payload_fits : length d.payload + 6 ≤ 2048

abbrev pub AllSound : List Datagram → Type 0
AllSound [] = Unit
AllSound (d ∷ ds) = IsSound d × AllSound ds

-- Four bytes, the lowest first.
abbrev pub word_bytes : ℕ → List ℕ
word_bytes n = (n % 2 ^ 8) ∷ (n / 2 ^ 8 % 2 ^ 8) ∷ (n / 2 ^ 16 % 2 ^ 8) ∷ (n / 2 ^ 24) ∷ []

abbrev pub datagram_bytes : Datagram → List ℕ
datagram_bytes d =
    d.head_0 ∷ d.head_1 ∷ d.head_2 ∷ d.head_3 ∷ (d.seqno % 2 ^ 8) ∷ (d.seqno / 2 ^ 8) ∷ d.payload

abbrev pub entry_bytes : Datagram → List ℕ
entry_bytes d =
    word_bytes d.tstamp_0
    ++ (word_bytes d.tstamp_1
        ++ (word_bytes d.ip ++ (word_bytes (length (datagram_bytes d)) ++ datagram_bytes d)))

abbrev pub log_bytes : List Datagram → List ℕ
log_bytes [] = []
log_bytes (d ∷ ds) = entry_bytes d ++ log_bytes ds

-- A log in front of other bytes.
abbrev pub log_then : List Datagram → List ℕ → List ℕ
log_then [] tail = tail
log_then (d ∷ ds) tail = entry_bytes d ++ log_then ds tail

pub log_then-append : (ds : List Datagram) (tail : List ℕ) → log_then ds tail ≡ log_bytes ds ++ tail
log_then-append [] tail = refl
log_then-append (d ∷ ds) tail =
    ap (λ (file : List ℕ). entry_bytes d ++ file) (log_then-append ds tail)
    ∙ sym (append_assoc (entry_bytes d) (log_bytes ds) tail)

-- The number that follows, on 16 bits.
abbrev pub next_seqno : Datagram → ℕ
next_seqno d = u16 (d.seqno + 1)

-- The part of a list that goes on from an expected number, and the runs of the rest.
unfoldable pub runs_from : ℕ → List Datagram → List Datagram × List (List Datagram)
runs_from n [] = ([], [])
runs_from n (d ∷ ds) =
    let (same, others) = runs_from (next_seqno d) ds in
    if d.seqno == n then (d ∷ same, others) else ([], (d ∷ same) ∷ others)

-- The runs of a list: each starts with a datagram and takes those that count on from it.
unfoldable pub runs : List Datagram → List (List Datagram)
runs [] = []
runs (d ∷ ds) = let (same, others) = runs_from (next_seqno d) ds in (d ∷ same) ∷ others

abbrev pub run_bytes : List Datagram → List ℕ
run_bytes [] = []
run_bytes (d ∷ ds) = d.payload ++ run_bytes ds

-- The files that should be written: one for each run, numbered on from n.
abbrev pub files_from : ℕ → List (List Datagram) → List (ℕ × List ℕ)
files_from n [] = []
files_from n (r ∷ rs) = (n, run_bytes r) ∷ files_from (n + 1) rs
