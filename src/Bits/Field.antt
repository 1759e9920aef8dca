-- ===== src/Bits/Field.antt =====
-- The bits of a field of a word, by its mask.
use native.Mathlib.Nat.{add-zero, one-le-pow}
use trace_fs.Base.{ℕ, ◌-◌, ◌*◌, ◌/◌, ◌%◌, ◌^◌, bit_and, ◌≡◌, arith, ap}
use trace_fs.Bits.{bit_and_split, bit_and_ones, bit_and-zero}

-- `&` with the mask of a field of j bits at bit k.
pub bit_and_field : (j k a : ℕ) → bit_and a ((2 ^ j - 1) * 2 ^ k) ≡ a / 2 ^ k % 2 ^ j * 2 ^ k
bit_and_field j k a = omega (
  arith,
  bit_and_split k (2 ^ j - 1) 0 a (one-le-pow k 2 (omega arith)),
  ap (λ (t : ℕ). bit_and a t) (add-zero ((2 ^ j - 1) * 2 ^ k)),
  bit_and-zero (a % 2 ^ k),
  ap (λ (t : ℕ). t * 2 ^ k) (bit_and_ones j (a / 2 ^ k)),
)
