-- ===== src/Tests/Printed.antt =====
-- What the splitter prints for a log that is cut in the header of its third entry.
use trace_fs.Base.{
  arith, ℕ, ◌+◌, ◌^◌, ◌%◌, [], ◌∷◌, ◌++◌, List, none, some, true, false, replicate,
  length-replicate, ◌≡◌, refl,
}
use trace_fs.Udp2Nexus.{whole, Globals, failed, next_entry, parse_file}
use trace_fs.Udp2Nexus.Log.{log_bytes}
use trace_fs.Udp2Nexus.Console.{
  title, no_argument, usage, not_found, exit_with, main_lines, parsing, boundary, from_ip, at_time,
  bytes_in, seqno_is, new_file, line_end, dumped, partial_header, parse_lines,
}
use trace_fs.Udp2Nexus.Accounts.{total, bytes_told, files_told, warnings_told, size_all, failures}
use trace_fs.Udp2Nexus.Reported.{parse_file-reported}
use trace_fs.Tests.Hosts.{datagram, globals}

abbrev empty_buffer : Globals
empty_buffer = record globals { buffer = replicate 2048 0 }

abbrev cut_log : List ℕ
cut_log = log_bytes (datagram 7 11 ∷ datagram 9 22 ∷ []) ++ (1 ∷ 2 ∷ 3 ∷ 4 ∷ 5 ∷ [])

abbrev cut_globals : Globals
cut_globals = elim (parse_file (λ i. true) whole empty_buffer (some cut_log)) [
  | none ↦ globals
  | some r ↦ r.2
]

cut_log_returns :
    parse_file (λ i. true) whole empty_buffer (some cut_log) ≡ some (some true, failed, cut_globals)
unfolding parse_file next_entry
cut_log_returns = refl

-- Two files, and no hint in the exit status that the third datagram is missing.
cut_log_lines :
    parse_lines (λ i. true) whole empty_buffer (some cut_log)
    ≡ parsing
      ∷ boundary
      ∷ from_ip 3 0 0 0
      ∷ at_time 0 0 0 2
      ∷ bytes_in 8
      ∷ seqno_is 7
      ∷ new_file 1
      ∷ line_end
      ∷ dumped 2
      ∷ boundary
      ∷ from_ip 3 0 0 0
      ∷ at_time 0 0 0 2
      ∷ bytes_in 8
      ∷ seqno_is 9
      ∷ new_file 2
      ∷ line_end
      ∷ dumped 2
      ∷ partial_header 1
      ∷ []
unfolding parse_lines next_entry
cut_log_lines = refl

parse_file-reported_example :
    let ls = parse_lines (λ i. true) whole empty_buffer (some cut_log) in
    (true ≡ true)
    × (0 + total bytes_told ls ≡ size_all cut_globals.written)
    × (total files_told ls % 2 ^ 32 ≡ cut_globals.filecount)
    × (total warnings_told ls ≡ failures failed)
parse_file-reported_example =
    parse_file-reported (λ i. true) whole (λ f size. omega arith) empty_buffer cut_globals cut_log
      true failed (length-replicate {A = ℕ} 2048 0) cut_log_returns

-- Where `fwrite` takes a byte of each of the two payloads, the lines say so.
one_byte_each :
    total bytes_told (parse_lines (λ i. true) (λ f size. 1) empty_buffer (some cut_log)) ≡ 2
unfolding parse_lines next_entry
one_byte_each = refl

no_argument_lines :
    main_lines (λ i. true) whole 1 empty_buffer none ≡ title ∷ no_argument ∷ usage ∷ []
unfolding main_lines
no_argument_lines = refl

no_log_lines :
    main_lines (λ i. true) whole 2 empty_buffer none
    ≡ title ∷ parsing ∷ not_found ∷ exit_with false ∷ []
unfolding main_lines
no_log_lines = refl
