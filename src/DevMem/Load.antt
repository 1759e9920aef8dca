-- ===== src/DevMem/Load.antt =====
-- tools/mem_loader/mem_loader.c: a raw binary is checked, padded and copied into a window.
use trace_fs.Base.{
  ℕ, ◌+◌, ◌-◌, ◌*◌, ◌/◌, ◌%◌, ◌^◌, List, [], ◌∷◌, ◌++◌, Option, none, some, Bool, false, ◌&&◌, ◌||◌,
  length, drop, get_or, replicate, ltb, ◌==◌, if◌then◌else◌, not,
}
use trace_fs.DevMem.{store_each}

abbrev pub window_size : ℕ
window_size = 0x8000

abbrev pub file_alignment_min : ℕ
file_alignment_min = 4

abbrev pub file_alignment_preferred : ℕ
file_alignment_preferred = 8

-- What the calls on one file answer: the bytes that `fopen` finds for the ELF test and for the
-- copy, whether `mmap`, `calloc` and the two `fseek` succeed, what `ftell` returns (`none` is a
-- negative number), and the bytes that `fread` delivers of a number asked for.
pub record Calls : Type 0 where
  pub elf_file : Option (List ℕ)
  pub mapped : Bool
  pub opened : Bool
  pub seek_end : Bool
  pub told : Option ℕ
  pub allocated : ℕ → Bool
  pub seek_start : Bool
  pub delivered : ℕ → List ℕ

unfoldable pub check_elf_magic : Option (List ℕ) → Bool
check_elf_magic (some (a ∷ b ∷ c ∷ d ∷ rest)) =
    (a == 0x7f) && (b == 0x45) && (c == 0x4c) && (d == 0x46)
check_elf_magic (some (a ∷ b ∷ c ∷ [])) = false
check_elf_magic (some (a ∷ b ∷ [])) = false
check_elf_magic (some (a ∷ [])) = false
check_elf_magic (some []) = false
check_elf_magic none = false

unfoldable pub padded_size : ℕ → ℕ
padded_size file_size =
    if file_size % file_alignment_preferred == 0
    then file_size
    else file_size + (file_alignment_preferred - file_size % file_alignment_preferred)

-- `memcpy` of a word out of the staging buffer.
abbrev pub buffer_word : List ℕ → ℕ → ℕ
buffer_word buffer i =
    get_or buffer (4 * i) 0
    + get_or buffer (4 * i + 1) 0 * 2 ^ 8
    + get_or buffer (4 * i + 2) 0 * 2 ^ 16
    + get_or buffer (4 * i + 3) 0 * 2 ^ 24

-- The staging buffer: `calloc` clears it, and `fread` writes the front of it.
abbrev pub staged : ℕ → List ℕ → List ℕ
staged padded bytes = bytes ++ drop (length bytes) (replicate padded 0)

-- The part behind `ftell`.
unfoldable pub load_sized : Calls → Option ℕ → List ℕ → ℕ × List ℕ
unfolding padded_size
load_sized calls none window = (1, window)
load_sized calls (some file_size) window =
    let padded = padded_size file_size in
    let bytes = calls.delivered file_size in
    let copied = store_each (buffer_word (staged padded bytes)) (padded / 4) 0 window in
    if not (file_size % file_alignment_min == 0)
    then (1, window)
    else if ltb window_size padded
    then (1, window)
    else if not (calls.allocated padded)
    then (1, window)
    else if not calls.seek_start
    then (1, window)
    else if not (length bytes == file_size)
    then (1, window)
    else (0, copied)

-- The status, 0 or 1, and the window.
unfoldable pub load_file_to_window : Calls → List ℕ → ℕ × List ℕ
unfolding load_sized check_elf_magic
load_file_to_window calls window =
    if check_elf_magic calls.elf_file
    then (1, window)
    else if not calls.mapped
    then (1, window)
    else if not calls.opened
    then (1, window)
    else if not calls.seek_end
    then (1, window)
    else load_sized calls calls.told window

-- The two windows.
pub record Memory : Type 0 where
  pub itcm : List ℕ
  pub bram : List ℕ

-- `main` on argc, on whether /dev/mem can be opened, and on the two files.
unfoldable pub main : ℕ → Bool → Calls → Calls → Memory → ℕ × Memory
unfolding load_file_to_window
main argc dev_mem itcm_file bram_file m =
    let (itcm_status, itcm) = load_file_to_window itcm_file m.itcm in
    let (bram_status, bram) = load_file_to_window bram_file m.bram in
    if not ((argc == 2) || (argc == 3))
    then (1, m)
    else if not dev_mem
    then (1, m)
    else if not (itcm_status == 0)
    then (1, record m { itcm = itcm })
    else if not (argc == 3)
    then (0, record m { itcm = itcm })
    else if not (bram_status == 0)
    then (1, record m { itcm = itcm; bram = bram })
    else (0, record m { itcm = itcm; bram = bram })
