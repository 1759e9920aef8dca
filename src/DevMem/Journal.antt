-- ===== src/DevMem/Journal.antt =====
-- tools/mem_loader: what the two programs acquire and release, and what they write on the console, in
-- order. The calls' answers are those of `Load` and `Dump`.
use trace_fs.Base.{
  ℕ, ◌%◌, List, [], ◌∷◌, ◌++◌, Option, none, some, Bool, true, false, length, ltb, leb, ◌==◌, ◌||◌,
  if◌then◌else◌, not,
}
use trace_fs.DevMem.Load.{
  Calls, window_size, file_alignment_min, file_alignment_preferred, check_elf_magic, padded_size,
  load_file_to_window,
}
use trace_fs.DevMem.Dump.{buffer_size}

-- /dev/mem, the mapping, the file opened for the ELF test, the file that is read or written, and the
-- staging buffer.
pub data Resource : Type 0 where
  dev_mem window_map probe bin_file file_buffer : Resource

pub data Problem : Type 0 where
  usage no_dev_mem is_elf not_mapped not_opened no_end no_size unaligned too_large no_buffer
        no_start short_read :
      Problem

-- `reported` is a message on the error stream, `informed` one on the standard output.
pub data Info : Type 0 where
  padded loaded opening dumped : Info

pub data Happened : Type 0 where
  acquired : Resource → Happened
  released : Resource → Happened
  reported : Problem → Happened
  informed : Info → Happened

abbrev pub check_elf_journal : Option (List ℕ) → List Happened
check_elf_journal none = []
check_elf_journal (some bytes) = acquired probe ∷ released probe ∷ []

abbrev pub free_if : Bool → Resource → List Happened
free_if held r = if held then released r ∷ [] else []

-- The label `cleanup`, on whether the buffer, the file and the mapping are there.
abbrev pub cleanup : Bool → Bool → Bool → List Happened
cleanup buffer file map =
    free_if buffer file_buffer ++ (free_if file bin_file ++ free_if map window_map)

-- The part behind `calloc`.
abbrev pub copy_journal : Calls → ℕ → List Happened
copy_journal calls file_size =
    if not calls.seek_start
    then reported no_start ∷ cleanup true true true
    else if not (length (calls.delivered file_size) == file_size)
    then reported short_read ∷ cleanup true true true
    else (if file_size % file_alignment_preferred == 0 then [] else informed padded ∷ [])
      ++ (informed loaded ∷ cleanup true true true)

-- The part behind `ftell`.
abbrev pub sized_journal : Calls → Option ℕ → List Happened
sized_journal calls none = reported no_size ∷ cleanup false true true
sized_journal calls (some file_size) =
    if not (file_size % file_alignment_min == 0)
    then reported unaligned ∷ cleanup false true true
    else if ltb window_size (padded_size file_size)
    then reported too_large ∷ cleanup false true true
    else if not (calls.allocated (padded_size file_size))
    then reported no_buffer ∷ cleanup false true true
    else acquired file_buffer ∷ copy_journal calls file_size

abbrev pub file_journal : Calls → List Happened
file_journal calls =
    if not calls.opened
    then reported not_opened ∷ cleanup false false true
    else acquired bin_file
      ∷ (if not calls.seek_end
          then reported no_end ∷ cleanup false true true
          else sized_journal calls calls.told)

unfoldable pub load_journal : Calls → List Happened
load_journal calls =
    check_elf_journal calls.elf_file
    ++ (if check_elf_magic calls.elf_file
        then reported is_elf ∷ []
        else if not calls.mapped
        then reported not_mapped ∷ []
        else acquired window_map ∷ file_journal calls)

-- `main` of the loader, on its argument count, on whether /dev/mem can be opened, and on the files.
unfoldable pub main_journal : ℕ → Bool → Calls → Calls → List ℕ → List ℕ → List Happened
main_journal argc opens itcm_file bram_file itcm bram =
    if not ((argc == 2) || (argc == 3))
    then reported usage ∷ []
    else if not opens
    then reported no_dev_mem ∷ []
    else acquired dev_mem
      ∷ (load_journal itcm_file
          ++ (if not ((load_file_to_window itcm_file itcm).0 == 0)
              then released dev_mem ∷ []
              else if not (argc == 3)
              then released dev_mem ∷ []
              else load_journal bram_file ++ (released dev_mem ∷ [])))

-- `read_dev_mem`, on the tests of `open`, `mmap` and `fopen`, up to a failed `assert`.
unfoldable pub dump_journal : Bool → Bool → Bool → ℕ → List Happened
dump_journal opens mapped opened size =
    if not opens
    then reported no_dev_mem ∷ []
    else acquired dev_mem
      ∷ (if not mapped
          then reported not_mapped ∷ released dev_mem ∷ []
          else acquired window_map
            ∷ informed opening
            ∷ (if not opened
                then reported not_opened ∷ released window_map ∷ released dev_mem ∷ []
                else acquired bin_file
                  ∷ (if not (leb size buffer_size)
                      then []
                      else released bin_file
                        ∷ released window_map
                        ∷ released dev_mem
                        ∷ informed dumped
                        ∷ [])))
