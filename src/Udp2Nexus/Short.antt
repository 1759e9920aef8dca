-- ===== src/Udp2Nexus/Short.antt =====
-- Where the write of tools/udp2nexus/main.c goes behind the buffer: at an entry with a datagram that
-- is shorter than its header of six bytes.
use trace_fs.Base.{
  ℕ, zero, suc, ◌+◌, ◌-◌, ◌^◌, ◌≤◌, ◌≡◌, arith, refl, ap, List, Option, none, some, Bool, true,
  false, Bool-cases, inl, inr, length, take, drop, u32, ltb, leb, ◌==◌, ◌||◌, ◌⊎◌, ◌∙◌, sym,
}
use trace_fs.Udp2Nexus.{
  File, Globals, Status, more, finished, failed, fault, read_u32, counted, dump_to, take_datagram,
  read_datagram, with_length, next_entry, entries,
}

-- The length of the entry at the front, and what is behind it.
abbrev pub length_at : List ℕ → Option ℕ × List ℕ
length_at file = read_u32 (read_u32 (read_u32 (read_u32 file).1).1).1

abbrev is_short : Option ℕ → Bool
is_short none = false
is_short (some dgramlen) = ltb dgramlen 6

abbrev behind : Option ℕ → List ℕ → List ℕ
behind none file = file
behind (some dgramlen) file = drop dgramlen file

-- Among the entries at the front, as many as the fuel, is one of fewer than six bytes.
unfoldable pub has_short : ℕ → List ℕ → Bool
has_short zero file = false
has_short (suc fuel) file =
    let (dgramlen, rest) = length_at file in
    let later = has_short fuel (behind dgramlen rest) in is_short dgramlen || later

or_left : (a b : Bool) → a ≡ true → (a || b) ≡ true
or_left a b e = ground (arith, e)

or_right : (a b : Bool) → b ≡ true → (a || b) ≡ true
or_right a b e = ground (arith, e)

module _ (can_open : ℕ → Bool) (taken : File → ℕ → ℕ) where
  dump_to-fault :
      (dgramlen : ℕ) (o : Option File) (g : Globals)
      → dgramlen ≤ 2048
      → (dump_to can_open taken dgramlen o g).0 ≡ fault
      → ltb dgramlen 6 ≡ true
  dump_to-fault dgramlen none g le e = absurd (cc)
  dump_to-fault dgramlen (some (n, bytes)) g le e =
      elim (Bool-cases (leb (6 + u32 (dgramlen + 2 ^ 32 - 6)) 2048)) [
        | inl fits ↦ let never : more ≡ fault = rw fits at e in absurd (cc)
        | inr over ↦ ground (arith, over, le)
      ]

  read_datagram-more :
      (dgramlen : ℕ) (g : Globals) (file : List ℕ)
      → (read_datagram can_open taken dgramlen g file).0 ≡ more
      → (read_datagram can_open taken dgramlen g file).2 ≡ drop dgramlen file
  unfolding read_datagram
  read_datagram-more dgramlen g file e = elim (Bool-cases (ltb 2048 dgramlen)) [
    | inl large ↦ let never : failed ≡ more = rw large at e in absurd (cc)
    | inr small ↦ elim (Bool-cases (ltb (length (take dgramlen file)) dgramlen)) [
      | inl cut ↦ rw (small, cut) refl
      | inr all_read ↦ rw (small, all_read) refl
    ]
  ]

  read_datagram-fault :
      (dgramlen : ℕ) (g : Globals) (file : List ℕ)
      → (read_datagram can_open taken dgramlen g file).0 ≡ fault
      → ltb dgramlen 6 ≡ true
  unfolding read_datagram take_datagram
  read_datagram-fault dgramlen g file e = elim (Bool-cases (ltb 2048 dgramlen)) [
    | inl large ↦ let never : failed ≡ fault = rw large at e in absurd (cc)
    | inr small ↦ elim (Bool-cases (ltb (length (take dgramlen file)) dgramlen)) [
      | inl cut ↦ let never : failed ≡ fault = rw (small, cut) at e in absurd (cc)
      | inr all_read ↦
          dump_to-fault dgramlen _ _ (ground (arith, small)) (rw (small, all_read) at e)
    ]
  ]

  with_length-fault :
      (o : Option ℕ) (g : Globals) (file : List ℕ)
      → (with_length can_open taken o g file).0 ≡ fault
      → is_short o ≡ true
  with_length-fault none g file e = absurd (cc)
  with_length-fault (some dgramlen) g file e = read_datagram-fault dgramlen g file e

  with_length-more :
      (o : Option ℕ) (g : Globals) (file : List ℕ)
      → (with_length can_open taken o g file).0 ≡ more
      → (with_length can_open taken o g file).2 ≡ behind o file
  with_length-more none g file e = absurd (cc)
  with_length-more (some dgramlen) g file e = read_datagram-more dgramlen g file e

  -- What an entry comes to if it is not given up before its length is there.
  next_entry-length :
      (g : Globals) (file : List ℕ) (status : Status)
      → (next_entry can_open taken g file).0 ≡ status
      → (status ≡ more) ⊎ (status ≡ fault)
      → next_entry can_open taken g file
        ≡ with_length can_open taken (length_at file).0 g (length_at file).1
  unfolding next_entry
  next_entry-length g file status e goes =
      let file1 = (read_u32 file).1 in
      let file2 = (read_u32 file1).1 in
      let cnt =
        counted (read_u32 file).0
        + counted (read_u32 file1).0
        + counted (read_u32 file2).0
        + counted (length_at file).0 in
      elim (Bool-cases (counted (read_u32 file).0 == 0)) [
        | inl ended ↦ elim goes [
          | inl m ↦ let is : finished ≡ status = rw ended at e in absurd (cc)
          | inr m ↦ let is : finished ≡ status = rw ended at e in absurd (cc)
        ]
        | inr going ↦ elim (Bool-cases (ltb cnt 4)) [
          | inl few ↦ elim goes [
            | inl m ↦ let is : failed ≡ status = rw (going, few) at e in absurd (cc)
            | inr m ↦ let is : failed ≡ status = rw (going, few) at e in absurd (cc)
          ]
          | inr all ↦ rw (going, all) refl
        ]
      ]

  next_entry-fault :
      (g : Globals) (file : List ℕ)
      → (next_entry can_open taken g file).0 ≡ fault
      → is_short (length_at file).0 ≡ true
  next_entry-fault g file e = with_length-fault (length_at file).0 g (length_at file).1 (
      ap (λ (r : Status × Globals × List ℕ). r.0)
        (sym (next_entry-length g file fault e (inr refl)))
      ∙ e)

  next_entry-more :
      (g : Globals) (file : List ℕ)
      → (next_entry can_open taken g file).0 ≡ more
      → (next_entry can_open taken g file).2 ≡ behind (length_at file).0 (length_at file).1
  next_entry-more g file e =
      let same = next_entry-length g file more e (inl refl) in
      ap (λ (r : Status × Globals × List ℕ). r.2) same
      ∙ with_length-more (length_at file).0 g (length_at file).1
          (ap (λ (r : Status × Globals × List ℕ). r.0) (sym same) ∙ e)

  -- The loop comes to an undefined access only in a log with an entry of fewer than six bytes.
  pub entries-has_short :
      (fuel : ℕ) (g g' : Globals) (file : List ℕ)
      → entries can_open taken fuel g file ≡ some (fault, g')
      → has_short fuel file ≡ true
  unfolding entries has_short
  entries-has_short zero g g' file h = absurd (cc)
  entries-has_short (suc fuel) g g' file h =
      by_status
        (λ k.
          entries-has_short fuel (next_entry can_open taken g file).1 g'
            (next_entry can_open taken g file).2 k)
        (next_entry can_open taken g file).0 refl h
    where
      by_status :
          (entries can_open taken fuel
                (next_entry can_open taken g file).1
                (next_entry can_open taken g file).2
              ≡ some (fault, g')
            → has_short fuel (next_entry can_open taken g file).2 ≡ true)
          → (st : Status) → (next_entry can_open taken g file).0 ≡ st
          → elim st [
            | more ↦
                entries can_open taken fuel
                  (next_entry can_open taken g file).1
                  (next_entry can_open taken g file).2
            | finished ↦ some (finished, (next_entry can_open taken g file).1)
            | failed ↦ some (failed, (next_entry can_open taken g file).1)
            | fault ↦ some (fault, (next_entry can_open taken g file).1)
          ]
            ≡ some (fault, g')
          → (is_short (length_at file).0
              || has_short fuel (behind (length_at file).0 (length_at file).1))
            ≡ true
      by_status further more e k =
          or_right (is_short (length_at file).0) _
            (ap (has_short fuel) (sym (next_entry-more g file e)) ∙ further k)
      by_status further finished e k = absurd (cc)
      by_status further failed e k = absurd (cc)
      by_status further fault e k =
          or_left _ (has_short fuel (behind (length_at file).0 (length_at file).1))
            (next_entry-fault g file e)
