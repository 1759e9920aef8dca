-- ===== src/DevMem/Loaded.antt =====
-- What `load_file_to_window` leaves in a window, which files it takes, and how `main` ends.
use trace_fs.Base.{
  ℕ, ◌*◌, ◌/◌, ◌%◌, ◌^◌, ◌≤◌, ◌<◌, ◌≡◌, ◌⊎◌, inl, inr, List, some, Bool, true, false, not, ◌||◌,
  ◌&&◌, length, get_or, ltb, ◌==◌, if◌then◌else◌, arith, refl, ap, ◌∙◌, Bool-cases,
}
use trace_fs.DevMem.{store_each, window_byte}
use trace_fs.DevMem.Load.{
  Calls, Memory, check_elf_magic, padded_size, buffer_word, staged, load_sized, load_file_to_window,
  main,
}
use trace_fs.DevMem.Window.{
  AllBytes, get_or-byte, get_or-staged, buffer_word-byte, store_each-inside, store_each-outside,
  length-store_each,
}

-- No call fails, and all of them see the same file.
pub record Reads (calls : Calls) (bytes : List ℕ) : Type 0 where
  pub elf_file_is : calls.elf_file ≡ some bytes
  pub mapped_is : calls.mapped ≡ true
  pub opened_is : calls.opened ≡ true
  pub seek_end_is : calls.seek_end ≡ true
  pub told_is : calls.told ≡ some (length bytes)
  pub allocated_is : calls.allocated (padded_size (length bytes)) ≡ true
  pub seek_start_is : calls.seek_start ≡ true
  pub delivered_is : calls.delivered (length bytes) ≡ bytes

-- The three tests of the loader on the file itself.
abbrev pub refused : List ℕ → Bool
refused bytes =
    check_elf_magic (some bytes) || (not (length bytes % 4 == 0) || ltb 0x8000 (length bytes))

-- A file that is refused, or on which a call fails, leaves the window as it was.
pub load_file_to_window-unchanged :
    (calls : Calls) (window : List ℕ)
    → ((load_file_to_window calls window).0 ≡ 0) ⊎ (load_file_to_window calls window ≡ (1, window))
unfolding load_file_to_window load_sized
load_file_to_window-unchanged calls window = ground arith

-- The bytes that are copied, with the window's own behind them.
abbrev pub loaded : List ℕ → List ℕ → List ℕ
loaded bytes window =
    let padded = padded_size (length bytes) in
    store_each (buffer_word (staged padded bytes)) (padded / 4) 0 window

padded_fits : (n : ℕ) → (n % 4 == 0) ≡ true → ltb 0x8000 (padded_size n) ≡ ltb 0x8000 n
unfolding padded_size
padded_fits n h = ground arith

self_eq : (n : ℕ) → (n == n) ≡ true
self_eq n = ground arith

load_sized-Reads :
    (calls : Calls) (bytes window : List ℕ)
    → Reads calls bytes
    → load_sized calls (some (length bytes)) window ≡ (
        if not (length bytes % 4 == 0) || ltb 0x8000 (length bytes)
        then (1, window)
        else (0, loaded bytes window))
unfolding load_sized
load_sized-Reads calls bytes window h =
    rw (h.delivered_is, h.seek_start_is, h.allocated_is, self_eq (length bytes))
      (elim (Bool-cases (length bytes % 4 == 0)) [
        | inl even ↦ rw (even, padded_fits (length bytes) even) refl
        | inr odd ↦ rw odd refl
      ])

load_file_to_window-Reads :
    (calls : Calls) (bytes window : List ℕ)
    → Reads calls bytes
    → load_file_to_window calls window
      ≡ (if refused bytes then (1, window) else (0, loaded bytes window))
unfolding load_file_to_window
load_file_to_window-Reads calls bytes window h =
    rw
      (
        h.elf_file_is,
        h.mapped_is,
        h.opened_is,
        h.seek_end_is,
        h.told_is,
        load_sized-Reads calls bytes window h,
      )
      (elim (Bool-cases (check_elf_magic (some bytes))) [
        | inl elf ↦ rw elf refl
        | inr raw ↦ rw raw refl
      ])

padded_bounds : (n : ℕ) → (n % 4 == 0) ≡ true → ltb 0x8000 n ≡ false → padded_size n ≤ 0x8000
unfolding padded_size
padded_bounds n aligned fits = ground arith

padded_words : (n : ℕ) → (n % 4 == 0) ≡ true → padded_size n / 4 * 4 ≡ padded_size n
unfolding padded_size
padded_words n aligned = ground arith

-- The bytes of a window behind the copy, when the padded file has whole words and fits.
loaded-byte :
    (bytes window : List ℕ) (n : ℕ)
    → AllBytes bytes
    → padded_size (length bytes) / 4 * 4 ≡ padded_size (length bytes)
    → padded_size (length bytes) ≤ 0x8000
    → length window ≡ 0x2000
    → window_byte (loaded bytes window) n
      ≡ (if ltb n (padded_size (length bytes)) then get_or bytes n 0 else window_byte window n)
loaded-byte bytes window n small whole fits size = elim (Bool-cases (ltb n padded)) [
  | inl inside ↦ rw inside (
      ap (λ (w : ℕ). w / 2 ^ (8 * (n % 4)) % 2 ^ 8)
        (store_each-inside 0 (buffer_word (staged padded bytes)) (padded / 4) 0 window (n / 4)
          (omega arith) (ground arith) (omega arith))
      ∙ buffer_word-byte (staged padded bytes) n staged_byte
      ∙ get_or-staged padded bytes n)
  | inr outside ↦ rw outside (
      ap (λ (w : ℕ). w / 2 ^ (8 * (n % 4)) % 2 ^ 8)
        (store_each-outside 0 (buffer_word (staged padded bytes)) (padded / 4) 0 window (n / 4)
          (inr (ground arith))))
]
  where
    padded : ℕ
    padded = padded_size (length bytes)

    staged_byte : (j : ℕ) → get_or (staged padded bytes) j 0 < 2 ^ 8
    staged_byte j = omega (arith, get_or-staged padded bytes j, get_or-byte bytes j small)

pub refused-fits : (bytes : List ℕ) → refused bytes ≡ false → length bytes ≤ 0x8000
refused-fits bytes taken = ground arith

pub le-padded_size : (n : ℕ) → n ≤ padded_size n
unfolding padded_size
le-padded_size n = ground arith

pub load_file_to_window-bytes :
    (calls : Calls) (bytes window : List ℕ) (n : ℕ)
    → Reads calls bytes
    → AllBytes bytes
    → length window ≡ 0x2000
    → let (status, window') = load_file_to_window calls window in
      (status ≡ (if refused bytes then 1 else 0))
      × (length window' ≡ 0x2000)
      × (window_byte window' n ≡ (
          if not (refused bytes) && ltb n (padded_size (length bytes))
          then get_or bytes n 0
          else window_byte window n))
load_file_to_window-bytes calls bytes window n h small size =
    rw (load_file_to_window-Reads calls bytes window h) (elim (Bool-cases (refused bytes)) [
      | inl bad ↦ rw bad (refl, size, refl)
      | inr taken ↦ rw taken (
        refl,
        length-store_each (buffer_word (staged (padded_size (length bytes)) bytes))
              (padded_size (length bytes) / 4) 0 window
            ∙ size,
        loaded-byte bytes window n small (padded_words (length bytes) (aligned taken))
            (padded_bounds (length bytes) (aligned taken) (fits taken)) size,
      )
    ])
  where
    aligned : refused bytes ≡ false → (length bytes % 4 == 0) ≡ true
    aligned taken = ground arith

    fits : refused bytes ≡ false → ltb 0x8000 (length bytes) ≡ false
    fits taken = ground arith

-- If the first file is loaded and the second is not, the program returns 1 with the first file in
-- its window and the other window as it was.
pub main-second_refused :
    (itcm_file bram_file : Calls) (m : Memory)
    → (load_file_to_window itcm_file m.itcm).0 ≡ 0
    → (load_file_to_window bram_file m.bram).0 ≡ 1
    → main 3 true itcm_file bram_file m
      ≡ (1, record m { itcm = (load_file_to_window itcm_file m.itcm).1 })
unfolding main
main-second_refused itcm_file bram_file m done failed =
    elim (load_file_to_window-unchanged bram_file m.bram) [
      | inl ok ↦ absurd (omega (arith, ok, failed))
      | inr same ↦ rw (done, same) refl
    ]
