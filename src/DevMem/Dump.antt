-- ===== src/DevMem/Dump.antt =====
-- tools/mem_loader/mem_dump.c: a window is copied byte by byte or word by word, and written out.
use trace_fs.Base.{
  ℕ, ◌/◌, ◌%◌, ◌^◌, List, [], ◌∷◌, Option, none, some, Bool, true, false, take, get_or, replicate,
  leb, if◌then◌else◌, not,
}
use trace_fs.DevMem.{store_each, window_byte}

abbrev pub buffer_size : ℕ
buffer_size = 0x8000

abbrev pub itcm_memory_size : ℕ
itcm_memory_size = 0x8000

-- The bytes of an array of words, as `fwrite` takes them on a little-endian host.
abbrev pub words_bytes : List ℕ → List ℕ
words_bytes [] = []
words_bytes (w ∷ ws) =
    (w % 2 ^ 8) ∷ (w / 2 ^ 8 % 2 ^ 8) ∷ (w / 2 ^ 16 % 2 ^ 8) ∷ (w / 2 ^ 24 % 2 ^ 8) ∷ words_bytes ws

abbrev pub copy_bytes : ℕ → List ℕ → List ℕ
copy_bytes size window =
    take size (store_each (window_byte window) size 0 (replicate buffer_size 0))

abbrev pub copy_words : ℕ → List ℕ → List ℕ
copy_words size window = words_bytes (
    take (size / 4)
      (store_each (λ i. get_or window i 0) (buffer_size / 4) 0 (replicate (buffer_size / 4) 0)))

-- Whether the call returns true, and the file that is written, if any. `none` is a failed `assert`.
-- The three tests are those of `open`, `mmap` and `fopen`.
unfoldable pub read_dev_mem :
    Bool → Bool → Bool → ℕ → Bool → List ℕ → Option (Bool × Option (List ℕ))
read_dev_mem dev_mem mapped opened size byte_copy window =
    if not dev_mem
    then some (false, none)
    else if not mapped
    then some (false, none)
    else if not opened
    then some (false, none)
    else if not (leb size buffer_size)
    then none
    else some (true, some (if byte_copy then copy_bytes size window else copy_words size window))

-- The exit status and the file that is written, if any; the tests are those of `read_dev_mem`.
unfoldable pub main : Bool → Bool → Bool → List ℕ → Option (ℕ × Option (List ℕ))
main dev_mem mapped opened window =
    elim (read_dev_mem dev_mem mapped opened itcm_memory_size false window) [
      | none ↦ none
      | some (good, file) ↦ some (0, file)
    ]
