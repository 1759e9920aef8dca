-- ===== src/DevMem/Balanced.antt =====
-- The programs of tools/mem_loader release what they acquire, and report a problem when they fail.
use trace_fs.Base.{
  some_inj, ℕ, suc, ◌+◌, ◌≤◌, ◌≡◌, ◌⊎◌, refl, ap, ◌∙◌, arith, List, [], ◌∷◌, ◌++◌, Option, none,
  some, Bool, true, false, ◌==◌, ◌||◌, if◌then◌else◌, not, Bool-cases, inl, inr,
}
use trace_fs.DevMem.Load.{Calls, Memory, load_sized, load_file_to_window, main}
use trace_fs.DevMem.Loaded.{load_file_to_window-unchanged}
use trace_fs.DevMem.Dump.{itcm_memory_size, read_dev_mem, main as dump_main}
use trace_fs.DevMem.Journal.{
  Resource, dev_mem, window_map, probe, bin_file, file_buffer, Happened, acquired, released,
  reported, informed, load_journal, main_journal, dump_journal,
}

-- Which resources are held.
pub record Held : Type 0 where
  pub has_dev_mem : Bool
  pub has_window_map : Bool
  pub has_probe : Bool
  pub has_bin_file : Bool
  pub has_file_buffer : Bool

abbrev pub nothing_held : Held
nothing_held = record {
  has_dev_mem = false;
  has_window_map = false;
  has_probe = false;
  has_bin_file = false;
  has_file_buffer = false;
}

abbrev pub holds : Resource → Held → Bool
holds dev_mem h = h.has_dev_mem
holds window_map h = h.has_window_map
holds probe h = h.has_probe
holds bin_file h = h.has_bin_file
holds file_buffer h = h.has_file_buffer

abbrev pub mark : Resource → Bool → Held → Held
mark dev_mem b h = record h { has_dev_mem = b }
mark window_map b h = record h { has_window_map = b }
mark probe b h = record h { has_probe = b }
mark bin_file b h = record h { has_bin_file = b }
mark file_buffer b h = record h { has_file_buffer = b }

-- `none` where something is acquired that is held, or released that is not.
abbrev pub replay_one : Happened → Held → Option Held
replay_one (acquired r) h = if holds r h then none else some (mark r true h)
replay_one (released r) h = if holds r h then some (mark r false h) else none
replay_one (reported p) h = some h
replay_one (informed i) h = some h

abbrev pub replay : List Happened → Held → Option Held
replay [] h = some h
replay (e ∷ es) h = elim (replay_one e h) [ none ↦ none | some h' ↦ replay es h' ]

-- The number of messages on the error stream.
abbrev pub problems : List Happened → ℕ
problems [] = 0
problems (acquired r ∷ es) = problems es
problems (released r ∷ es) = problems es
problems (reported p ∷ es) = suc (problems es)
problems (informed i ∷ es) = problems es

-- The loader on one file, with or without /dev/mem.
load_journal-Balanced :
    (calls : Calls) (window : List ℕ) (d : Bool)
    → let h = mark dev_mem d nothing_held in
      (replay (load_journal calls) h ≡ some h)
      × (problems (load_journal calls) ≡ (load_file_to_window calls window).0)
unfolding load_journal load_file_to_window load_sized
load_journal-Balanced calls window d = ground arith

replay-append :
    (es fs : List Happened) (h h' : Held)
    → replay es h ≡ some h'
    → replay (es ++ fs) h ≡ replay fs h'
replay-append [] fs h h' e = ap (replay fs) (some_inj h h' e)
replay-append (x ∷ es) fs h h' e =
    by_first (λ h1 e1. replay-append es fs h1 h' e1) (replay_one x h) e
  where
    by_first :
        ((h1 : Held) → replay es h1 ≡ some h' → replay (es ++ fs) h1 ≡ replay fs h')
        → (o : Option Held) → elim o [ none ↦ none | some h1 ↦ replay es h1 ] ≡ some h'
        → elim o [ none ↦ none | some h1 ↦ replay (es ++ fs) h1 ] ≡ replay fs h'
    by_first further none e = cc
    by_first further (some h1) e = further h1 e

problems-append : (es fs : List Happened) → problems (es ++ fs) ≡ problems es + problems fs
problems-append [] fs = omega arith
problems-append (acquired r ∷ es) fs = problems-append es fs
problems-append (released r ∷ es) fs = problems-append es fs
problems-append (reported p ∷ es) fs = omega (arith, problems-append es fs)
problems-append (informed i ∷ es) fs = problems-append es fs

load_journal-append :
    (calls : Calls) (window : List ℕ) (rest : List Happened)
    → let h = mark dev_mem true nothing_held in
      (replay (load_journal calls ++ rest) h ≡ replay rest h)
      × (problems (load_journal calls ++ rest)
          ≡ (load_file_to_window calls window).0 + problems rest)
load_journal-append calls window rest =
    let h = mark dev_mem true nothing_held in
    let one = load_journal-Balanced calls window true in
    (
      replay-append (load_journal calls) rest h h one.0,
      problems-append (load_journal calls) rest ∙ ap (λ (n : ℕ). n + problems rest) one.1,
    )

-- For any number of arguments and any answers of the calls: the loader releases exactly what it has
-- acquired, each once and on every path, and writes exactly one message on the error stream if it
-- returns 1, and none if it returns 0.
pub main_journal-Balanced :
    (argc : ℕ) (opens : Bool) (itcm_file bram_file : Calls) (m : Memory)
    → let journal = main_journal argc opens itcm_file bram_file m.itcm m.bram in
      (replay journal nothing_held ≡ some nothing_held)
      × (problems journal ≡ (main argc opens itcm_file bram_file m).0)
unfolding main_journal main
main_journal-Balanced argc opens itcm_file bram_file m =
    elim (Bool-cases ((argc == 2) || (argc == 3))) [
      | inr bad ↦ rw bad (refl, refl)
      | inl good ↦ elim (Bool-cases opens) [
        | inr closed ↦ rw (good, closed) (refl, refl)
        | inl usable ↦
            rw
              (
                good,
                usable,
                (load_journal-append itcm_file m.itcm behind).0,
                (load_journal-append itcm_file m.itcm behind).1,
              )
              (elim (status itcm_file m.itcm) [
                | inr failed ↦ rw failed (refl, refl)
                | inl done ↦ rw done (elim (Bool-cases (argc == 3)) [
                  | inr one ↦ rw one (refl, refl)
                  | inl two ↦
                      rw
                        (
                          two,
                          (load_journal-append bram_file m.bram (released dev_mem ∷ [])).0,
                          (load_journal-append bram_file m.bram (released dev_mem ∷ [])).1,
                        )
                        (elim (status bram_file m.bram) [
                          | inr failed ↦ rw failed (refl, refl)
                          | inl done' ↦ rw done' (refl, refl)
                        ])
                ])
              ])
      ]
    ]
  where
    status :
        (calls : Calls) (window : List ℕ)
        → ((load_file_to_window calls window).0 ≡ 0) ⊎ ((load_file_to_window calls window).0 ≡ 1)
    status calls window = elim (load_file_to_window-unchanged calls window) [
      | inl ok ↦ inl ok
      | inr same ↦ inr (ap (λ (r : ℕ × List ℕ). r.0) same)
    ]

    -- The journal behind the first file.
    behind : List Happened
    behind =
        if not ((load_file_to_window itcm_file m.itcm).0 == 0)
        then released dev_mem ∷ []
        else if not (argc == 3)
        then released dev_mem ∷ []
        else load_journal bram_file ++ (released dev_mem ∷ [])

-- What a call that returns has returned.
abbrev pub returned : Option (Bool × Option (List ℕ)) → Option Bool
returned none = none
returned (some (b, file)) = some b

-- For any answers of the calls and a size that fits the buffer: the dump tool releases exactly what
-- it has acquired, each once and on every path, and reports a problem exactly if it returns false.
pub dump_journal-Balanced :
    (opens mapped opened byte_copy : Bool) (size : ℕ) (window : List ℕ)
    → size ≤ 0x8000
    → let journal = dump_journal opens mapped opened size in
      (replay journal nothing_held ≡ some nothing_held)
      × (returned (read_dev_mem opens mapped opened size byte_copy window)
          ≡ some (problems journal == 0))
unfolding dump_journal read_dev_mem
dump_journal-Balanced opens mapped opened byte_copy size window h = ground arith

-- Whether `main` of the dump tool ends, returns 0 and has written a file.
abbrev pub ends_with_file : Option (ℕ × Option (List ℕ)) → Option (ℕ × Bool)
ends_with_file none = none
ends_with_file (some (status, none)) = some (status, false)
ends_with_file (some (status, some file)) = some (status, true)

-- For any answers of the calls: the dump tool releases exactly what it has acquired, each once and on
-- every path; it writes a file exactly if it reports no problem, and it returns 0 either way.
pub dump_journal-main :
    (opens mapped opened : Bool) (window : List ℕ)
    → let journal = dump_journal opens mapped opened itcm_memory_size in
      (replay journal nothing_held ≡ some nothing_held)
      × (ends_with_file (dump_main opens mapped opened window) ≡ some (0, problems journal == 0))
unfolding dump_journal dump_main read_dev_mem
dump_journal-main opens mapped opened window = ground arith
