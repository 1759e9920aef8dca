-- ===== src/Ctrace/Datum.antt =====
-- What the receiver makes of the words that `emit_data_raw` writes: one datum, two, four.
use trace_fs.Base.{
  ℕ, ◌+◌, ◌*◌, ◌/◌, ◌%◌, ◌^◌, ◌≤◌, ◌<◌, bit_or, List, [], ◌∷◌, ◌++◌, ◌≡◌, refl, arith, ap, ◌∙◌,
}
use mathlib.Core.List.{append_assoc}
use trace_fs.Bits.{bit_or_field}
use trace_fs.Ctrace.Emit.{CsrWrite, csr_write, ctrace_act_cap_cmd_csr, emit_data_raw}
use trace_fs.Ctrace.Word.{build_as_sum}
use trace_fs.Ctrace.Protocol.{Partial, idle, deliver, take_datum, take_write, receive, owner}

-- The write of a direct-data word.
abbrev datum_write : ℕ → CsrWrite
datum_write d = record { csr = ctrace_act_cap_cmd_csr; value = d * 2 ^ 8 + 3 }

raw_word :
    (t p : ℕ)
    → t < 256
    → p < 2 ^ 16
    → emit_data_raw (bit_or (t * 2 ^ 16) p) ≡ datum_write (t * 2 ^ 16 + p) ∷ []
unfolding emit_data_raw
raw_word t p ht hp =
    rw (bit_or_field 16 t p hp, build_as_sum 3 0 (t * 2 ^ 16 + p))
      (ap (λ (v : ℕ). csr_write ctrace_act_cap_cmd_csr v) (omega arith))

take_write-datum :
    (q : Partial) (d : ℕ) → d < 2 ^ 24 → take_write q (datum_write d) ≡ take_datum q d
unfolding take_write
take_write-datum q d h = ground arith

pub receive-raw :
    (t p : ℕ) (q : Partial) (rest : List CsrWrite)
    → t < 256
    → p < 2 ^ 16
    → receive q (emit_data_raw (bit_or (t * 2 ^ 16) p) ++ rest)
      ≡ (take_datum q (t * 2 ^ 16 + p)).1 ++ receive (take_datum q (t * 2 ^ 16 + p)).0 rest
unfolding receive
receive-raw t p q rest ht hp =
    rw (raw_word t p ht hp, take_write-datum q (t * 2 ^ 16 + p) (omega arith)) refl

-- A word with the continue bit adds 16 bits to the sequence.
take_datum-continue :
    (t p : ℕ) (q : Partial)
    → 64 ≤ t
    → t < 128
    → p < 2 ^ 16
    → take_datum q (t * 2 ^ 16 + p) ≡ (record { got = q.got + 16; acc = q.acc + p * 2 ^ q.got }, [])
unfolding take_datum
take_datum-continue t p q lo hi hp = ground arith

-- A word without it completes a value of 8 * n bits, if those bits are there.
take_datum-end :
    (type n p : ℕ) (q : Partial)
    → type < 4
    → 0 < n
    → n < 16
    → p < 2 ^ 16
    → 8 * n ≤ q.got + 16
    → q.acc + p * 2 ^ q.got < 2 ^ (8 * n)
    → take_datum q ((type * 16 + n) * 2 ^ 16 + p)
      ≡ (idle, deliver type (8 * n) (q.acc + p * 2 ^ q.got) ∷ [])
unfolding take_datum
take_datum-end type n p q ht pos hn hp enough fits = rw (high, low, width, kind) (ground arith)
  where
    high : ((type * 16 + n) * 2 ^ 16 + p) / 2 ^ 16 ≡ type * 16 + n
    high = omega arith

    low : ((type * 16 + n) * 2 ^ 16 + p) % 2 ^ 16 ≡ p
    low = omega arith

    width : (type * 16 + n) % 16 ≡ n
    width = omega arith

    kind : (type * 16 + n) / 16 % 4 ≡ type
    kind = omega arith

take_datum-owner :
    (id : ℕ) (q : Partial) → id < 2 ^ 16 → take_datum q (128 * 2 ^ 16 + id) ≡ (q, owner id ∷ [])
unfolding take_datum
take_datum-owner id q h = ground arith

receive-continue :
    (t p : ℕ) (q : Partial) (rest : List CsrWrite)
    → 64 ≤ t
    → t < 128
    → p < 2 ^ 16
    → receive q (emit_data_raw (bit_or (t * 2 ^ 16) p) ++ rest)
      ≡ receive (record { got = q.got + 16; acc = q.acc + p * 2 ^ q.got }) rest
receive-continue t p q rest lo hi hp =
    rw (receive-raw t p q rest (omega arith) hp, take_datum-continue t p q lo hi hp)

receive-end :
    (type n p : ℕ) (q : Partial) (rest : List CsrWrite)
    → type < 4
    → 0 < n
    → n < 16
    → p < 2 ^ 16
    → 8 * n ≤ q.got + 16
    → q.acc + p * 2 ^ q.got < 2 ^ (8 * n)
    → receive q (emit_data_raw (bit_or ((type * 16 + n) * 2 ^ 16) p) ++ rest)
      ≡ deliver type (8 * n) (q.acc + p * 2 ^ q.got) ∷ receive idle rest
receive-end type n p q rest ht pos hn hp enough fits = rw (
  receive-raw (type * 16 + n) p q rest (omega arith) hp,
  take_datum-end type n p q ht pos hn hp enough fits,
)

-- Words of width code n, with and without the continue bit.
abbrev pub continue_with : ℕ → ℕ → ℕ → List CsrWrite
continue_with type n w = emit_data_raw (bit_or ((64 + type * 16 + n) * 2 ^ 16) w)

abbrev pub end_with : ℕ → ℕ → ℕ → List CsrWrite
end_with type n w = emit_data_raw (bit_or ((type * 16 + n) * 2 ^ 16) w)

module _ (type : ℕ) (rest : List CsrWrite) (ht : type < 4) where
  -- A value of 8 or 16 bits is one datum.
  pub receive-one :
      (n p : ℕ)
      → 0 < n
      → n < 3
      → p < 2 ^ 16
      → p < 2 ^ (8 * n)
      → receive idle (emit_data_raw (bit_or ((type * 16 + n) * 2 ^ 16) p) ++ rest)
        ≡ deliver type (8 * n) p ∷ receive idle rest
  receive-one n p pos hn hp fits =
      receive-end type n p idle rest ht pos (omega arith) hp (omega arith) (rw start fits)
      ∙ ap (λ (v : ℕ). deliver type (8 * n) v ∷ receive idle rest) start
    where
      start : 0 + p * 2 ^ 0 ≡ p
      start = omega arith

  -- A value of 32 bits is two, the low half first.
  pub receive-two :
      (w0 w1 : ℕ)
      → w0 < 2 ^ 16
      → w1 < 2 ^ 16
      → receive idle ((continue_with type 4 w0 ++ end_with type 4 w1) ++ rest)
        ≡ deliver type 32 (w0 + w1 * 2 ^ 16) ∷ receive idle rest
  receive-two w0 w1 h0 h1 =
      rw
        (
          append_assoc (continue_with type 4 w0),
          receive-continue (64 + type * 16 + 4) w0 idle (end_with type 4 w1 ++ rest) (omega arith)
              (omega arith) h0,
        )
        (receive-end type 4 w1 (record { got = 16; acc = 0 + w0 * 2 ^ 0 }) rest ht (omega arith)
            (omega arith) h1 (omega arith) (omega arith)
          ∙ ap (λ (v : ℕ). deliver type 32 v ∷ receive idle rest) (omega arith))

  -- A value of 64 bits is four, the low quarter first.
  pub receive-four :
      (w0 w1 w2 w3 : ℕ)
      → w0 < 2 ^ 16
      → w1 < 2 ^ 16
      → w2 < 2 ^ 16
      → w3 < 2 ^ 16
      → receive idle (
          (continue_with type 8 w0
            ++ (continue_with type 8 w1 ++ (continue_with type 8 w2 ++ end_with type 8 w3)))
          ++ rest)
        ≡ deliver type 64 (w0 + w1 * 2 ^ 16 + w2 * 2 ^ 32 + w3 * 2 ^ 48) ∷ receive idle rest
  receive-four w0 w1 w2 w3 h0 h1 h2 h3 =
      rw
        (
          append_assoc (continue_with type 8 w0),
          append_assoc (continue_with type 8 w1),
          append_assoc (continue_with type 8 w2),
          receive-continue (64 + type * 16 + 8) w0 idle _ (omega arith) (omega arith) h0,
          receive-continue (64 + type * 16 + 8) w1 _ _ (omega arith) (omega arith) h1,
          receive-continue (64 + type * 16 + 8) w2 _ _ (omega arith) (omega arith) h2,
        )
        (receive-end type 8 w3
            (record { got = 48; acc = 0 + w0 * 2 ^ 0 + w1 * 2 ^ 16 + w2 * 2 ^ 32 }) rest ht
            (omega arith) (omega arith) h3 (omega arith) (omega arith)
          ∙ ap (λ (v : ℕ). deliver type 64 v ∷ receive idle rest) (omega arith))

-- The task id of an ownership message leaves the running sequence as it is.
pub receive-owner :
    (id : ℕ) (q : Partial) (rest : List CsrWrite)
    → id < 2 ^ 16
    → receive q (emit_data_raw (bit_or (128 * 2 ^ 16) id) ++ rest) ≡ owner id ∷ receive q rest
receive-owner id q rest h = rw (receive-raw 128 id q rest (omega arith) h, take_datum-owner id q h)
