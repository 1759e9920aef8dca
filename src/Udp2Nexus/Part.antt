-- ===== src/Udp2Nexus/Part.antt =====
-- `next_entry` at the end of a log that is cut in the middle of an entry.

use trace_fs.Base.{
  ℕ, zero, suc, ◌+◌, ◌-◌, ◌≤◌, ◌<◌, ◌≡◌, refl, ap, ◌∙◌, arith, List, [], ◌∷◌, ◌++◌, Bool, true,
  false, length, take, ltb, if◌then◌else◌,
}
use trace_fs.Udp2Nexus.{
  whole, Status, finished, failed, Globals, read_u32, counted, fill, read_datagram, next_entry,
}
use trace_fs.Udp2Nexus.Log.{Datagram, IsSound, word_bytes, datagram_bytes}
use trace_fs.Udp2Nexus.Entry.{word_value}

-- How the loop ends at the first k bytes of an entry.
abbrev pub cut_status : ℕ → Status
cut_status k = if ltb k 4 then finished else failed

counted-read_u32 :
    (file : List ℕ) → counted (read_u32 file).0 ≡ (if ltb (length file) 4 then 0 else 1)
counted-read_u32 [] = refl
counted-read_u32 (a ∷ []) = refl
counted-read_u32 (a ∷ b ∷ []) = refl
counted-read_u32 (a ∷ b ∷ c ∷ []) = refl
counted-read_u32 (a ∷ b ∷ c ∷ d ∷ rest) = ground arith

length-read_u32 : (file : List ℕ) → length (read_u32 file).1 ≡ length file - 4
length-read_u32 [] = refl
length-read_u32 (a ∷ []) = refl
length-read_u32 (a ∷ b ∷ []) = refl
length-read_u32 (a ∷ b ∷ c ∷ []) = refl
length-read_u32 (a ∷ b ∷ c ∷ d ∷ rest) = omega arith

take_all : (n : ℕ) (xs : List ℕ) → length xs ≤ n → take n xs ≡ xs
take_all zero [] h = refl
take_all zero (x ∷ xs) h = absurd (omega arith)
take_all (suc n) [] h = refl
take_all (suc n) (x ∷ xs) h = ap (λ (t : List ℕ). x ∷ t) (take_all n xs (omega arith))

pub take-append :
    (n k : ℕ) (xs ys : List ℕ) → n ≡ length xs + k → take n (xs ++ ys) ≡ xs ++ take k ys
take-append n k [] ys h = ap (λ (i : ℕ). take i ys) (h ∙ omega arith)
take-append zero k (x ∷ xs) ys h = absurd (omega (arith, h))
take-append (suc n) k (x ∷ xs) ys h =
    ap (λ (t : List ℕ). x ∷ t) (take-append n k xs ys (omega (arith, h)))

-- The sixteen bytes in front of a datagram.
abbrev pub header : Datagram → List ℕ
header d =
    word_bytes d.tstamp_0
    ++ (word_bytes d.tstamp_1 ++ (word_bytes d.ip ++ word_bytes (length (datagram_bytes d))))

module _ (can_open : ℕ → Bool) where
  -- Fewer bytes than a header.
  pub next_entry-short :
      (g : Globals) (tail : List ℕ)
      → length tail < 16
      → ((next_entry can_open whole g tail).0 ≡ cut_status (length tail))
        × ((next_entry can_open whole g tail).1 ≡ g)
  unfolding next_entry
  next_entry-short g tail h =
      let file1 = (read_u32 tail).1 in
      let file2 = (read_u32 file1).1 in
      let file3 = (read_u32 file2).1 in
      ground (
        arith,
        counted-read_u32 tail,
        counted-read_u32 file1,
        counted-read_u32 file2,
        counted-read_u32 file3,
        length-read_u32 tail,
        length-read_u32 file1,
        length-read_u32 file2,
      )

  read_datagram-part :
      (n : ℕ) (g : Globals) (part : List ℕ)
      → length part < n
      → n ≤ 2048
      → ((read_datagram can_open whole n g part).0 ≡ failed)
        × ((read_datagram can_open whole n g part).1 ≡ fill part g)
  unfolding read_datagram
  read_datagram-part n g part short fits =
      rw (take_all n part (omega arith), above, below) (refl, refl)
    where
      above : ltb 2048 n ≡ false
      above = ground arith

      below : ltb (length part) n ≡ true
      below = ground arith

  -- A whole header, and a part of the datagram.
  pub next_entry-part :
      (d : Datagram) (g : Globals) (part : List ℕ)
      → IsSound d
      → length part < length (datagram_bytes d)
      → ((next_entry can_open whole g (header d ++ part)).0 ≡ failed)
        × ((next_entry can_open whole g (header d ++ part)).1 ≡ fill part g)
  unfolding next_entry
  next_entry-part d g part h short =
      rw (word_value (length (datagram_bytes d)) (omega (arith, h.payload_fits))) (
        read_datagram-part (length (datagram_bytes d)) g part short (omega (arith, h.payload_fits)))
