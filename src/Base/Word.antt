-- ===== src/Base/Word.antt =====
-- Fixed-width machine words as native numbers: casts, shifts, complement and single bits.
use Prim.Native.Nat.{ℕ, ◌-◌, ◌*◌, ◌/◌, ◌%◌, ◌^◌}

abbrev pub u8 : ℕ → ℕ
u8 n = n % 2 ^ 8

abbrev pub u16 : ℕ → ℕ
u16 n = n % 2 ^ 16

abbrev pub u32 : ℕ → ℕ
u32 n = n % 2 ^ 32

abbrev pub u64 : ℕ → ℕ
u64 n = n % 2 ^ 64

infixl 75 ◌<<<◌ ◌>>>◌
-- A left shift of a `uint32_t` (or of a non-negative `int` that stays below 2 ^ 31).
abbrev pub ◌<<<◌ : ℕ → ℕ → ℕ
x <<< k = u32 (x * 2 ^ k)

-- A right shift of an unsigned value.
abbrev pub ◌>>>◌ : ℕ → ℕ → ℕ
x >>> k = x / 2 ^ k

-- `~x` on 32 bits.
abbrev pub bit_not : ℕ → ℕ
bit_not x = 2 ^ 32 - 1 - u32 x

-- The bit of weight 2 ^ i.
abbrev pub bit_at : ℕ → ℕ → ℕ
bit_at i x = x / 2 ^ i % 2
