-- ===== src/Tests/Hosts.antt =====
-- Inputs for the tools that run on the host.
use trace_fs.Base.{
  Option, Bool, ℕ, [], ◌∷◌, ◌++◌, none, some, true, false, length, get_or, ltb, replicate, take,
  length-replicate, arith, ◌≡◌, ◌<◌, if◌then◌else◌, refl, List,
}
use trace_fs.Udp2Nexus.{whole, Globals, Status, finished, fault, more, parse_file, take_datagram}
use trace_fs.Udp2Nexus.Log.{Datagram, IsSound, log_bytes, entry_bytes, runs, runs_from, files_from}
use trace_fs.Udp2Nexus.Split.{outcome, parse_file-runs}
use trace_fs.Udp2Nexus.Dropped.{parse_file-dropped, take_datagram-short}
use trace_fs.Udp2Nexus.Ends.{EndsWell, parse_file-ends}
use trace_fs.Udp2Nexus.Part.{cut_status}
use trace_fs.Udp2Nexus.Cut.{parse_file-cut}
use trace_fs.DevMem.Load.{
  Calls, Memory, load_file_to_window, padded_size, check_elf_magic, load_sized,
}
use trace_fs.DevMem.Loaded.{Reads, refused}
use trace_fs.DevMem.Window.{AllBytes}
use trace_fs.DevMem.Dump.{read_dev_mem}
use trace_fs.DevMem.Dumped.{read_dev_mem-load_file_to_window}

abbrev pub datagram : ℕ → ℕ → Datagram
datagram seqno byte = record {
  tstamp_0 = 1;
  tstamp_1 = 2;
  ip = 3;
  head_0 = 0;
  head_1 = 0;
  head_2 = 0;
  head_3 = 0;
  seqno = seqno;
  payload = byte ∷ byte ∷ [];
}

datagram-IsSound : (seqno byte : ℕ) → seqno < 65536 → IsSound (datagram seqno byte)
datagram-IsSound seqno byte h = record {
  tstamp_0_lt = omega arith;
  tstamp_1_lt = omega arith;
  ip_lt = omega arith;
  seqno_lt = h;
  payload_fits = omega arith;
}

abbrev pub globals : Globals
globals = record {
  buffer = replicate 8 0;
  seqno_exp = 0;
  stream = none;
  filecount = 0;
  written = [];
}

-- Two runs: 7, 8 and, behind a gap, 20.
parse_file-runs_example :
    let ds = datagram 8 22 ∷ datagram 20 33 ∷ [] in
    outcome (parse_file (λ i. true) whole globals (some (log_bytes (datagram 7 11 ∷ ds))))
    ≡ some (some true, finished, [] ++ files_from 1 (runs (datagram 7 11 ∷ ds)))
parse_file-runs_example =
    parse_file-runs (λ i. true) (λ i. refl) (datagram 7 11) (datagram 8 22 ∷ datagram 20 33 ∷ [])
      globals
      (
        datagram-IsSound 7 11 (omega arith),
        (datagram-IsSound 8 22 (omega arith), (datagram-IsSound 20 33 (omega arith), tt)),
      )
      (λ e. omega (arith, e)) (omega arith)

-- The run of 0xffff and 0 is dropped, and 5 is the first file.
parse_file-dropped_example :
    let ds = datagram 0xffff 11 ∷ datagram 0 22 ∷ datagram 5 33 ∷ [] in
    outcome (parse_file (λ i. true) whole globals (some (log_bytes ds)))
    ≡ some (some true, finished, [] ++ files_from 1 (runs_from 0xffff ds).1)
parse_file-dropped_example =
    parse_file-dropped (λ i. true) (λ i. refl)
      (datagram 0xffff 11 ∷ datagram 0 22 ∷ datagram 5 33 ∷ []) globals
      (
        datagram-IsSound 0xffff 11 (omega arith),
        (datagram-IsSound 0 22 (omega arith), (datagram-IsSound 5 33 (omega arith), tt)),
      )
      (omega arith)

dropped_files :
    (runs_from 0xffff (datagram 0xffff 11 ∷ datagram 0 22 ∷ datagram 5 33 ∷ [])).1
    ≡ (datagram 5 33 ∷ []) ∷ []
unfolding runs_from
dropped_files = refl

take_datagram-short_example :
    (take_datagram (λ i. true) whole 4 (record globals { stream = some (1, []) })).0
    ≡ (if ltb 4 6 then fault else more)
take_datagram-short_example =
    take_datagram-short (λ i. true) whole (λ i. refl) 4 (record globals { stream = some (1, []) })
      (1, []) refl (omega arith)

-- The run of 7 and 8, and then the header and seven of the eight bytes of 9.
parse_file-cut_example :
    outcome (
      parse_file
        (λ i. true)
        whole
        globals
        (some (
          log_bytes (datagram 7 11 ∷ datagram 8 22 ∷ []) ++ take 23 (entry_bytes (datagram 9 33)))))
    ≡ some
        (some true, cut_status 23, [] ++ files_from 1 (runs (datagram 7 11 ∷ datagram 8 22 ∷ [])))
parse_file-cut_example =
    parse_file-cut (λ i. true) (λ i. refl) (datagram 7 11) (datagram 8 22 ∷ []) (datagram 9 33) 23
      globals (datagram-IsSound 7 11 (omega arith), (datagram-IsSound 8 22 (omega arith), tt))
      (datagram-IsSound 9 33 (omega arith)) (omega arith) (λ e. omega (arith, e)) (omega arith)

-- A log that ends in the middle of a header.
parse_file-ends_example :
    (r : Option Bool × Status × Globals) × (parse_file
        (λ i. true)
        whole
        globals
        (some (1 ∷ 2 ∷ 3 ∷ 4 ∷ 5 ∷ []))
      ≡ some r)
    × EndsWell (some (1 ∷ 2 ∷ 3 ∷ 4 ∷ 5 ∷ [])) r
parse_file-ends_example = parse_file-ends (λ i. true) whole globals (some (1 ∷ 2 ∷ 3 ∷ 4 ∷ 5 ∷ []))

-- A file of twelve bytes, which is padded to sixteen.
abbrev pub raw_file : List ℕ
raw_file = 1 ∷ 2 ∷ 3 ∷ 4 ∷ 5 ∷ 6 ∷ 7 ∷ 8 ∷ 9 ∷ 10 ∷ 11 ∷ 12 ∷ []

abbrev pub calls_on : List ℕ → Calls
calls_on bytes = record {
  elf_file = some bytes;
  mapped = true;
  opened = true;
  seek_end = true;
  told = some (length bytes);
  allocated = λ n. true;
  seek_start = true;
  delivered = λ n. take n bytes;
}

raw_file-Reads : Reads (calls_on raw_file) raw_file
raw_file-Reads = record {
  elf_file_is = refl;
  mapped_is = refl;
  opened_is = refl;
  seek_end_is = refl;
  told_is = refl;
  allocated_is = refl;
  seek_start_is = refl;
  delivered_is = refl;
}

-- A window of 0x2000 words that are all 0xdead.
abbrev old_window : List ℕ
old_window = replicate 0x2000 0xdead

old_window-length : length old_window ≡ 0x2000
old_window-length = length-replicate {A = ℕ} 0x2000 0xdead

raw_file-AllBytes : AllBytes raw_file
raw_file-AllBytes = (
  omega arith,
  (
    omega arith,
    (
      omega arith,
      (
        omega arith,
        (
          omega arith,
          (
            omega arith,
            (
              omega arith,
              (omega arith, (omega arith, (omega arith, (omega arith, (omega arith, tt))))),
            ),
          ),
        ),
      ),
    ),
  ),
)

raw_file-taken : refused raw_file ≡ false
unfolding check_elf_magic
raw_file-taken = refl

read_dev_mem-load_file_to_window_example :
    (dumped : List ℕ) × (read_dev_mem true true true 0x8000 false
        (load_file_to_window (calls_on raw_file) old_window).1
      ≡ some (true, some dumped))
    × (get_or dumped 11 0 ≡ get_or raw_file 11 0)
read_dev_mem-load_file_to_window_example =
    read_dev_mem-load_file_to_window (calls_on raw_file) raw_file old_window 11 raw_file-Reads
      raw_file-AllBytes old_window-length raw_file-taken (omega arith)

-- A second file that is not a multiple of four bytes.
abbrev pub odd_file : List ℕ
odd_file = 1 ∷ 2 ∷ 3 ∷ []

abbrev pub small_memory : Memory
small_memory = record { itcm = 9 ∷ 9 ∷ 9 ∷ 9 ∷ 9 ∷ []; bram = 9 ∷ 9 ∷ [] }

raw_file-loads : (load_file_to_window (calls_on raw_file) small_memory.itcm).0 ≡ 0
unfolding load_file_to_window load_sized check_elf_magic padded_size
raw_file-loads = refl

odd_file-fails : (load_file_to_window (calls_on odd_file) small_memory.bram).0 ≡ 1
unfolding load_file_to_window load_sized check_elf_magic padded_size
odd_file-fails = refl
