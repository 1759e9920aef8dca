-- ===== src/DevMem/Dumped.antt =====
-- What `read_dev_mem` writes to its file, for both ways to copy, and the way back from the loader.
use trace_fs.Base.{
  get_or-take, ℕ, zero, ltb, lt→ltb, ◌*◌, ◌/◌, ◌%◌, ◌^◌, ◌≤◌, ◌<◌, ◌≡◌, List, [], ◌∷◌, some, Bool,
  true, false, leb, length, take, get_or, replicate, arith, refl, ap, ◌∙◌, length-take,
  length-replicate,
}
use trace_fs.DevMem.{store_each, window_byte}
use trace_fs.DevMem.Dump.{read_dev_mem, copy_bytes, copy_words, words_bytes, itcm_memory_size}
use trace_fs.DevMem.Load.{Calls, padded_size, load_file_to_window}
use trace_fs.DevMem.Loaded.{Reads, refused, load_file_to_window-bytes, refused-fits, le-padded_size}
use trace_fs.DevMem.Window.{AllBytes, get_or-words_bytes, store_each-inside, length-store_each}

length-words_bytes : (ws : List ℕ) → length (words_bytes ws) ≡ 4 * length ws
length-words_bytes [] = refl
length-words_bytes (w ∷ ws) = omega (arith, length-words_bytes ws)

below : (size : ℕ) → size ≤ 0x8000 → leb size 0x8000 ≡ true
below size h = ground arith

-- An empty buffer of the dump.
length-zeros : (n : ℕ) → length (replicate n zero) ≡ n
length-zeros n = length-replicate n _

copy_bytes-byte :
    (size : ℕ) (window : List ℕ) (n : ℕ)
    → n < size
    → size ≤ 0x8000
    → get_or (copy_bytes size window) n 0 ≡ window_byte window n
copy_bytes-byte size window n h fits =
    get_or-take 0 size (store_each (window_byte window) size 0 (replicate 0x8000 0)) n h
    ∙ store_each-inside 0 (window_byte window) size 0 (replicate 0x8000 0) n (omega arith)
        (omega arith) (omega (arith, length-zeros 0x8000))

copy_words-byte :
    (size : ℕ) (window : List ℕ) (n : ℕ)
    → n < size
    → size % 4 ≡ 0
    → size ≤ 0x8000
    → get_or (copy_words size window) n 0 ≡ window_byte window n
copy_words-byte size window n h whole fits =
    get_or-words_bytes (take (size / 4) (store_each word 0x2000 0 (replicate 0x2000 0))) n
    ∙ ap (λ (w : ℕ). w / 2 ^ (8 * (n % 4)) % 2 ^ 8)
        (get_or-take 0 (size / 4) (store_each word 0x2000 0 (replicate 0x2000 0)) (n / 4)
            (omega arith)
          ∙ store_each-inside 0 word 0x2000 0 (replicate 0x2000 0) (n / 4) (omega arith)
              (omega arith) (omega (arith, length-zeros 0x2000)))
  where
    word : ℕ → ℕ
    word i = get_or window i 0

length-copy_bytes :
    (size : ℕ) (window : List ℕ) → size ≤ 0x8000 → length (copy_bytes size window) ≡ size
length-copy_bytes size window fits = omega (
  arith,
  length-take size (store_each (window_byte window) size 0 (replicate 0x8000 0)),
  length-store_each (window_byte window) size 0 (replicate 0x8000 0),
  length-zeros 0x8000,
)

length-copy_words :
    (size : ℕ) (window : List ℕ)
    → size % 4 ≡ 0
    → size ≤ 0x8000
    → length (copy_words size window) ≡ size
length-copy_words size window whole fits = omega (
  arith,
  length-words_bytes
      (take (size / 4) (store_each (λ i. get_or window i 0) 0x2000 0 (replicate 0x2000 0))),
  length-take (size / 4) (store_each (λ i. get_or window i 0) 0x2000 0 (replicate 0x2000 0)),
  length-store_each (λ i. get_or window i 0) 0x2000 0 (replicate 0x2000 0),
  length-zeros 0x2000,
)

-- When /dev/mem, the mapping and the output file can be opened, dumping a size that is a multiple
-- of 4 and at most 0x8000 returns true and writes exactly that many bytes, and each is the byte at
-- its place in the window, for the copy by bytes and for the copy by words.
pub read_dev_mem-bytes :
    (byte_copy : Bool) (size : ℕ) (window : List ℕ) (n : ℕ)
    → size % 4 ≡ 0
    → size ≤ 0x8000
    → n < size
    → (bytes : List ℕ) × (read_dev_mem true true true size byte_copy window
        ≡ some (true, some bytes))
      × (length bytes ≡ size)
      × (get_or bytes n 0 ≡ window_byte window n)
unfolding read_dev_mem
read_dev_mem-bytes true size window n whole fits h = (
  copy_bytes size window,
  rw (below size fits) refl,
  length-copy_bytes size window fits,
  copy_bytes-byte size window n h fits,
)
read_dev_mem-bytes false size window n whole fits h = (
  copy_words size window,
  rw (below size fits) refl,
  length-copy_words size window whole fits,
  copy_words-byte size window n h whole fits,
)

-- A file of bytes that the loader takes, with no call failing, comes back: the dump of the window
-- of 0x8000 bytes has the file's bytes at the front.
pub read_dev_mem-load_file_to_window :
    (calls : Calls) (bytes window : List ℕ) (n : ℕ)
    → Reads calls bytes
    → AllBytes bytes
    → length window ≡ 0x2000
    → refused bytes ≡ false
    → n < length bytes
    → (dumped : List ℕ) × (read_dev_mem true true true itcm_memory_size false
          (load_file_to_window calls window).1
        ≡ some (true, some dumped))
      × (get_or dumped n 0 ≡ get_or bytes n 0)
read_dev_mem-load_file_to_window calls bytes window n reads small size taken h =
    let back =
      read_dev_mem-bytes false 0x8000 (load_file_to_window calls window).1 n refl (omega arith)
        (omega (arith, refused-fits bytes taken)) in
    let front = load_file_to_window-bytes calls bytes window n reads small size in
    (back.0, back.1, back.3 ∙ front.2 ∙ rw (taken, inside) refl)
  where
    inside : ltb n (padded_size (length bytes)) ≡ true
    inside = lt→ltb n (padded_size (length bytes)) (omega (arith, le-padded_size (length bytes)))
