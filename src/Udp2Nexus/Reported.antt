-- ===== src/Udp2Nexus/Reported.antt =====
-- The lines of a whole run of the splitter, against its files and the way it ended.
use mathlib.Core.List.{append-nil}
use trace_fs.Base.{
  ℕ, zero, suc, ◌+◌, ◌^◌, ◌%◌, ◌≡◌, refl, ap, arith, List, [], ◌∷◌, ◌++◌, Option, none, some,
  some_inj, Bool, true, false, ◌≤◌, length,
}
use mathlib.Core.Path.{subst}
use trace_fs.Udp2Nexus.{
  finish, File, dgram_max, Globals, Status, more, finished, failed, fault, close_stream, next_entry,
  entries, parse_file,
}
use trace_fs.Udp2Nexus.Console.{Line, parsing, next_lines, entries_lines, parse_lines}
use trace_fs.Udp2Nexus.Warnings.{next_entry-Accounts}
use trace_fs.Udp2Nexus.Accounts.{
  total, total-append, bytes_told, files_told, warnings_told, size_all, size_open, failures,
  IsSized, Accounts, size_of-close_file, stream-close_file, rest-close_file,
}

Accounts-trans :
    (g g1 g2 : Globals) (ls ms : List Line) (status : Status)
    → Accounts g ls more g1
    → Accounts g1 ms status g2
    → Accounts g (ls ++ ms) status g2
Accounts-trans g g1 g2 ls ms status a b = record {
  sized = b.sized;
  bytes = omega (arith, a.bytes, b.bytes, total-append bytes_told ls ms);
  files = omega (arith, a.files, b.files, total-append files_told ls ms);
  warnings = omega (arith, a.warnings, b.warnings, total-append warnings_told ls ms);
}

-- The loop ends behind the entry.
ended :
    (g : Globals) (ls : List Line) (x y : Status × Globals)
    → Accounts g ls x.0 x.1
    → some x ≡ some y
    → Accounts g (ls ++ []) y.0 y.1
ended g ls x y a h = rw (append-nil ls, ← some_inj x y h) a

-- The value of a return, where there is one.
abbrev is_true : Option Bool → Bool
is_true none = false
is_true (some b) = b

-- Closing the last file changes nothing of the account.
closed :
    (g g' : Globals) (ls : List Line) (status : Status)
    → g.stream ≡ none
    → g.filecount ≡ 0
    → Accounts g ls status g'
    → let g'' = close_stream g' in
      (size_all g.written + total bytes_told (parsing ∷ ls) ≡ size_all g''.written)
      × (total files_told (parsing ∷ ls) % 2 ^ 32 ≡ g''.filecount)
      × (total warnings_told (parsing ∷ ls) ≡ failures status)
unfolding close_stream
closed g g' ls status e k a =
    let none_open = ap size_open (stream-close_file g'.stream g' refl) in
    let same = size_of-close_file g'.stream g' refl in
    let count = (rest-close_file g'.stream g').1 in
    (
      omega (arith, a.bytes, same, none_open, ap size_open e),
      omega (arith, a.files, count, k),
      omega (arith, a.warnings),
    )

module _ (can_open : ℕ → Bool) (taken : File → ℕ → ℕ)
    (fits : (f : File) (size : ℕ) → taken f size ≤ size) where
  entries-Accounts :
      (fuel : ℕ) (g g' : Globals) (file : List ℕ) (status : Status)
      → IsSized g
      → entries can_open taken fuel g file ≡ some (status, g')
      → Accounts g (entries_lines can_open taken fuel g file) status g'
  unfolding entries entries_lines
  entries-Accounts zero g g' file status sized h = absurd (cc)
  entries-Accounts (suc fuel) g g' file status sized h =
      by_status
        (λ a k.
          entries-Accounts fuel (next_entry can_open taken g file).1 g'
            (next_entry can_open taken g file).2 status a.sized k)
        (next_entry can_open taken g file).0 (next_entry-Accounts can_open taken fits g file sized)
        h
    where
      by_status :
          ((a : Accounts g
              (next_lines can_open taken g file)
              more
              (next_entry can_open taken g file).1)
            → entries can_open taken fuel
                (next_entry can_open taken g file).1
                (next_entry can_open taken g file).2
              ≡ some (status, g')
            → Accounts
                (next_entry can_open taken g file).1
                (entries_lines can_open taken fuel
                  (next_entry can_open taken g file).1
                  (next_entry can_open taken g file).2)
                status
                g')
          → (st : Status)
          → Accounts g (next_lines can_open taken g file) st (next_entry can_open taken g file).1
          → elim st [
            | more ↦
                entries can_open taken fuel
                  (next_entry can_open taken g file).1
                  (next_entry can_open taken g file).2
            | finished ↦ some (finished, (next_entry can_open taken g file).1)
            | failed ↦ some (failed, (next_entry can_open taken g file).1)
            | fault ↦ some (fault, (next_entry can_open taken g file).1)
          ]
            ≡ some (status, g')
          → Accounts g
              (next_lines can_open taken g file ++ elim st [
                | more ↦
                    entries_lines can_open taken fuel
                      (next_entry can_open taken g file).1
                      (next_entry can_open taken g file).2
                | finished ↦ []
                | failed ↦ []
                | fault ↦ []
              ])
              status
              g'
      by_status further more a h = Accounts-trans g _ g' _ _ status a (further a h)
      by_status further finished a h =
          ended g _ (finished, (next_entry can_open taken g file).1) (status, g') a h
      by_status further failed a h =
          ended g _ (failed, (next_entry can_open taken g file).1) (status, g') a h
      by_status further fault a h =
          ended g _ (fault, (next_entry can_open taken g file).1) (status, g') a h

  -- For any log, any globals with a buffer of its size, and a host whose `fwrite` takes at most what
  -- it is given: where the program returns, it returns 0; the bytes that it says it has dumped are
  -- those in the files that it has added; the lines on a new file are as many as the files that it has
  -- begun (on 32 bits); and it has printed one warning if the loop ended on an error, and none if it
  -- did not.
  pub parse_file-reported :
      (g g' : Globals) (file : List ℕ) (ok : Bool) (status : Status)
      → length g.buffer ≡ dgram_max
      → parse_file can_open taken g (some file) ≡ some (some ok, status, g')
      → let ls = parse_lines can_open taken g (some file) in
        (ok ≡ true)
        × (size_all g.written + total bytes_told ls ≡ size_all g'.written)
        × (total files_told ls % 2 ^ 32 ≡ g'.filecount)
        × (total warnings_told ls ≡ failures status)
  unfolding parse_file parse_lines
  parse_file-reported g g' file ok status sized h =
      by_result (entries can_open taken (suc (length file)) g0 file) refl h
    where
      g0 : Globals
      g0 = record g { seqno_exp = 0xffff; stream = none; filecount = 0 }

      Told : Bool → Status → Globals → Type 0
      Told ok status g' =
          let ls = parse_lines can_open taken g (some file) in
          (ok ≡ true)
          × (size_all g.written + total bytes_told ls ≡ size_all g'.written)
          × (total files_told ls % 2 ^ 32 ≡ g'.filecount)
          × (total warnings_told ls ≡ failures status)

      told :
          (st : Status) (g1 : Globals)
          → entries can_open taken (suc (length file)) g0 file ≡ some (st, g1)
          → Told true st (close_stream g1)
      told st g1 e =
          let (bytes, files, warnings) =
            closed g0 g1 (entries_lines can_open taken (suc (length file)) g0 file) st refl refl (
              entries-Accounts (suc (length file)) g0 g1 file st
                (record { buffer = sized; filecount = omega arith }) e) in
          (refl, bytes, files, warnings)

      same :
          (st : Status) (g1 : Globals)
          → Told true st g1
          → ◌≡◌ {A = Option (Option Bool × Status × Globals)}
              (some (some true, st, g1))
              (some (some ok, status, g'))
          → Told ok status g'
      same st g1 a k =
          let r : Option Bool × Status × Globals = (some true, st, g1) in
          let r' : Option Bool × Status × Globals = (some ok, status, g') in
          let p = some_inj r r' k in
          subst (λ (r : Option Bool × Status × Globals). Told (is_true r.0) r.1 r.2) p a

      by_result :
          (o : Option (Status × Globals))
          → entries can_open taken (suc (length file)) g0 file ≡ o
          → elim o [ none ↦ none | some r ↦ some (finish r) ] ≡ some (some ok, status, g')
          → Told ok status g'
      by_result none e k = absurd (cc)
      by_result (some (more, g1)) e k = same more (close_stream g1) (told more g1 e) k
      by_result (some (finished, g1)) e k = same finished (close_stream g1) (told finished g1 e) k
      by_result (some (failed, g1)) e k = same failed (close_stream g1) (told failed g1 e) k
      by_result (some (fault, g1)) e k = absurd (cc)
