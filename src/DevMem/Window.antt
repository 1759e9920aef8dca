-- ===== src/DevMem/Window.antt =====
-- Reading lists behind writes, concatenation and a prefix, and the bytes of a word.
use trace_fs.Base.{
  ℕ, zero, suc, ◌+◌, ◌*◌, ◌/◌, ◌%◌, ◌^◌, ◌≤◌, ◌<◌, ◌≡◌, ◌⊎◌, inl, inr, List, [], ◌∷◌, ◌++◌, length,
  drop, get_or, set, replicate, get_or-set_ne, get_or-set_self, arith, refl, ap, ◌∙◌, sym,
  length-set, ◌==◌, Bool-cases,
}
use trace_fs.DevMem.{store_each, window_byte}
use trace_fs.DevMem.Load.{buffer_word, staged}
use trace_fs.DevMem.Dump.{words_bytes}

module _ {ℓ} {A : Type ℓ} (d : A) where
  get_or-replicate : (n i : ℕ) → get_or (replicate n d) i d ≡ d
  get_or-replicate zero i = refl
  get_or-replicate (suc n) zero = refl
  get_or-replicate (suc n) (suc i) = get_or-replicate n i

  get_or-drop-replicate : (k n i : ℕ) → get_or (drop k (replicate n d)) i d ≡ d
  get_or-drop-replicate zero n i = get_or-replicate n i
  get_or-drop-replicate (suc k) zero i = refl
  get_or-drop-replicate (suc k) (suc n) i = get_or-drop-replicate k n i

  -- What the loop has not reached keeps its value.
  pub store_each-outside :
      (f : ℕ → A) (n i : ℕ) (xs : List A) (j : ℕ)
      → (j < i) ⊎ (i + n ≤ j)
      → get_or (store_each f n i xs) j d ≡ get_or xs j d
  unfolding store_each
  store_each-outside f zero i xs j h = refl
  store_each-outside f (suc n) i xs j (inl h) =
      store_each-outside f n (i + 1) (set xs i (f i)) j (inl (omega arith))
      ∙ get_or-set_ne d xs i j (f i) (λ e. omega (arith, e))
  store_each-outside f (suc n) i xs j (inr h) =
      store_each-outside f n (i + 1) (set xs i (f i)) j (inr (omega arith))
      ∙ get_or-set_ne d xs i j (f i) (λ e. omega (arith, e))

  -- What it has reached is what it stored.
  pub store_each-inside :
      (f : ℕ → A) (n i : ℕ) (xs : List A) (j : ℕ)
      → i ≤ j
      → j < i + n
      → i + n ≤ length xs
      → get_or (store_each f n i xs) j d ≡ f j
  unfolding store_each
  store_each-inside f zero i xs j lo hi fits = absurd (omega arith)
  store_each-inside f (suc n) i xs j lo hi fits = elim (Bool-cases (i == j)) [
    | inl e ↦
        let here : i ≡ j = ground arith in
        store_each-outside f n (i + 1) (set xs i (f i)) j (inl (omega arith))
        ∙ ap (λ (k : ℕ). get_or (set xs i (f i)) k d) (sym here)
        ∙ get_or-set_self d xs i (f i) (omega arith)
        ∙ ap f here
    | inr e ↦
        store_each-inside f n (i + 1) (set xs i (f i)) j (ground arith) (omega arith)
          (omega (arith, length-set xs i (f i)))
  ]

module _ {ℓ} {A : Type ℓ} where
  pub length-store_each :
      (f : ℕ → A) (n i : ℕ) (xs : List A) → length (store_each f n i xs) ≡ length xs
  unfolding store_each
  length-store_each f zero i xs = refl
  length-store_each f (suc n) i xs =
      length-store_each f n (i + 1) (set xs i (f i)) ∙ length-set xs i (f i)

-- Zeros behind a list do not show in a read whose default is zero.
get_or-append_zeros :
    (xs zeros : List ℕ) (i : ℕ)
    → ((j : ℕ) → get_or zeros j 0 ≡ 0)
    → get_or (xs ++ zeros) i 0 ≡ get_or xs i 0
get_or-append_zeros [] zeros i h = h i
get_or-append_zeros (x ∷ xs) zeros zero h = refl
get_or-append_zeros (x ∷ xs) zeros (suc i) h = get_or-append_zeros xs zeros i h

pub get_or-staged :
    (padded : ℕ) (bytes : List ℕ) (i : ℕ) → get_or (staged padded bytes) i 0 ≡ get_or bytes i 0
get_or-staged padded bytes i =
    get_or-append_zeros bytes (drop (length bytes) (replicate padded 0)) i
      (get_or-drop-replicate 0 (length bytes) padded)

abbrev pub AllBytes : List ℕ → Type 0
AllBytes [] = Unit
AllBytes (x ∷ xs) = (x < 2 ^ 8) × AllBytes xs

pub get_or-byte : (xs : List ℕ) (i : ℕ) → AllBytes xs → get_or xs i 0 < 2 ^ 8
get_or-byte [] i h = omega arith
get_or-byte (x ∷ xs) zero (h, hs) = h
get_or-byte (x ∷ xs) (suc i) (h, hs) = get_or-byte xs i hs

-- The bytes of a word that was put together out of a buffer of bytes are those bytes.
word_byte :
    (buffer : List ℕ) (q r : ℕ)
    → ((j : ℕ) → get_or buffer j 0 < 2 ^ 8)
    → r < 4
    → buffer_word buffer q / 2 ^ (8 * r) % 2 ^ 8 ≡ get_or buffer (4 * q + r) 0
word_byte buffer q zero small h =
    let place : 4 * q ≡ 4 * q + 0 = omega arith in
    omega (
      arith,
      small (4 * q),
      small (4 * q + 1),
      small (4 * q + 2),
      small (4 * q + 3),
      ap (λ (i : ℕ). get_or buffer i 0) place,
    )
word_byte buffer q (suc zero) small h =
    omega (arith, small (4 * q), small (4 * q + 1), small (4 * q + 2), small (4 * q + 3))
word_byte buffer q (suc (suc zero)) small h =
    omega (arith, small (4 * q), small (4 * q + 1), small (4 * q + 2), small (4 * q + 3))
word_byte buffer q (suc (suc (suc zero))) small h =
    omega (arith, small (4 * q), small (4 * q + 1), small (4 * q + 2), small (4 * q + 3))
word_byte buffer q (suc (suc (suc (suc r)))) small h = absurd (omega arith)

pub buffer_word-byte :
    (buffer : List ℕ) (n : ℕ)
    → ((j : ℕ) → get_or buffer j 0 < 2 ^ 8)
    → buffer_word buffer (n / 4) / 2 ^ (8 * (n % 4)) % 2 ^ 8 ≡ get_or buffer n 0
buffer_word-byte buffer n small =
    word_byte buffer (n / 4) (n % 4) small (omega arith)
    ∙ ap (λ (i : ℕ). get_or buffer i 0) (omega arith)

-- The bytes of an array of words, one by one.
pub get_or-words_bytes : (ws : List ℕ) (n : ℕ) → get_or (words_bytes ws) n 0 ≡ window_byte ws n
get_or-words_bytes [] n = omega arith
get_or-words_bytes (w ∷ ws) zero = omega arith
get_or-words_bytes (w ∷ ws) (suc zero) = refl
get_or-words_bytes (w ∷ ws) (suc (suc zero)) = refl
get_or-words_bytes (w ∷ ws) (suc (suc (suc zero))) = refl
get_or-words_bytes (w ∷ ws) (suc (suc (suc (suc n)))) =
    get_or-words_bytes ws n
    ∙ ap (λ (i : ℕ). get_or (w ∷ ws) i 0 / 2 ^ (8 * (n % 4)) % 2 ^ 8) quotient
    ∙ ap (λ (r : ℕ). get_or (w ∷ ws) (suc (suc (suc (suc n))) / 4) 0 / 2 ^ (8 * r) % 2 ^ 8)
        remainder
  where
    quotient : suc (n / 4) ≡ suc (suc (suc (suc n))) / 4
    quotient = omega arith

    remainder : n % 4 ≡ suc (suc (suc (suc n))) % 4
    remainder = omega arith
