-- ===== src/Tests/Journals.antt =====
-- Inputs for what the two programs of tools/mem_loader acquire and release.
use trace_fs.Base.{[], ◌∷◌, some, true, false, ◌==◌, ◌≡◌, refl}
use trace_fs.DevMem.Load.{check_elf_magic, padded_size, main}
use trace_fs.DevMem.Dump.{main as dump_main}
use trace_fs.DevMem.Journal.{
  main_journal, dump_journal, load_journal, window_map, probe, bin_file, file_buffer, acquired,
  released, reported, informed, padded, loaded, unaligned,
}
use trace_fs.DevMem.Balanced.{
  replay, nothing_held, problems, ends_with_file, main_journal-Balanced, dump_journal-main,
}
use trace_fs.Tests.Hosts.{raw_file, odd_file, calls_on, small_memory}

-- The second file is not a multiple of four bytes.
main_journal-Balanced_example :
    let journal =
      main_journal 3 true
        (calls_on raw_file)
        (calls_on odd_file)
        small_memory.itcm
        small_memory.bram in
    (replay journal nothing_held ≡ some nothing_held)
    × (problems journal ≡ (main 3 true (calls_on raw_file) (calls_on odd_file) small_memory).0)
main_journal-Balanced_example =
    main_journal-Balanced 3 true (calls_on raw_file) (calls_on odd_file) small_memory

odd_file_journal :
    load_journal (calls_on odd_file)
    ≡ acquired probe
      ∷ released probe
      ∷ acquired window_map
      ∷ acquired bin_file
      ∷ reported unaligned
      ∷ released bin_file
      ∷ released window_map
      ∷ []
unfolding load_journal check_elf_magic
odd_file_journal = refl

raw_file_journal :
    load_journal (calls_on raw_file)
    ≡ acquired probe
      ∷ released probe
      ∷ acquired window_map
      ∷ acquired bin_file
      ∷ acquired file_buffer
      ∷ informed padded
      ∷ informed loaded
      ∷ released file_buffer
      ∷ released bin_file
      ∷ released window_map
      ∷ []
unfolding load_journal check_elf_magic padded_size
raw_file_journal = refl

-- The output file cannot be opened.
dump_journal-main_example :
    let journal = dump_journal true true false 0x8000 in
    (replay journal nothing_held ≡ some nothing_held)
    × (ends_with_file (dump_main true true false (1 ∷ 2 ∷ [])) ≡ some (0, problems journal == 0))
dump_journal-main_example = dump_journal-main true true false (1 ∷ 2 ∷ [])
