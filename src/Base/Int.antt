-- ===== src/Base/Int.antt =====
-- Signed integers over the native numbers, under the library's names (its ℤ stands on the unary ℕ).
-- Sums and orders go through the two parts of an integer, which are numbers that `omega` reads.
use Prim.Native.Nat.{ℕ, suc, ◌+◌, ◌-◌, ◌*◌, ◌/◌, ◌%◌, ◌^◌, ◌≤◌, ◌<◌}
use mathlib.Core.Path.{◌≡◌}
use mathlib.Core.Bool.{Bool}
use native.Mathlib.Nat.{mod-eq_of_lt}
use native.Mathlib.Omega.{arith}
use trace_fs.Base.Tests.{leb, ltb, if◌then◌else◌}

-- `negsuc n` is -(n + 1).
pub data ℤ : Type 0 where
  pos : ℕ → ℤ
  negsuc : ℕ → ℤ

abbrev pub pos_part : ℤ → ℕ
pos_part (pos n) = n
pos_part (negsuc n) = 0

abbrev pub neg_part : ℤ → ℕ
neg_part (pos n) = 0
neg_part (negsuc n) = suc n

-- a - b, as an integer.
abbrev pub sub_ℕ : ℕ → ℕ → ℤ
sub_ℕ a b = if leb b a then pos (a - b) else negsuc (b - a - 1)

infixl 65 ◌+ℤ◌ ◌-ℤ◌
infixl 70 ◌*ℤ◌
infix 50 ◌≤ℤ◌
unfoldable pub ◌+ℤ◌ : ℤ → ℤ → ℤ
a +ℤ b = sub_ℕ (pos_part a + pos_part b) (neg_part a + neg_part b)

unfoldable pub ◌-ℤ◌ : ℤ → ℤ → ℤ
a -ℤ b = sub_ℕ (pos_part a + neg_part b) (neg_part a + pos_part b)

unfoldable pub ◌*ℤ◌ : ℤ → ℤ → ℤ
a *ℤ b =
    sub_ℕ (pos_part a * pos_part b + neg_part a * neg_part b)
      (pos_part a * neg_part b + neg_part a * pos_part b)

abbrev pub ◌≤ℤ◌ : ℤ → ℤ → Type 0
a ≤ℤ b = pos_part a + neg_part b ≤ pos_part b + neg_part a

abbrev pub ltb_ℤ : ℤ → ℤ → Bool
ltb_ℤ a b = ltb (pos_part a + neg_part b) (pos_part b + neg_part a)

-- The two's complement pattern of width w of an integer: the value modulo 2 ^ w.
abbrev pub pattern_of : ℕ → ℤ → ℕ
pattern_of w (pos n) = n % 2 ^ w
pattern_of w (negsuc n) = 2 ^ w - 1 - n % 2 ^ w

-- The integer that a pattern of width w, below 2 ^ w, stands for.
abbrev pub signed_of : ℕ → ℕ → ℤ
signed_of w p = if ltb (2 * p) (2 ^ w) then pos p else negsuc (2 ^ w - 1 - p)

-- What a store to a `short` or to an `int` makes of a value.
abbrev pub int16 : ℤ → ℤ
int16 z = signed_of 16 (pattern_of 16 z)

abbrev pub int32 : ℤ → ℤ
int32 z = signed_of 32 (pattern_of 32 z)

-- `>>` of a signed value, which rounds towards minus infinity.
abbrev pub shift_right_ℤ : ℤ → ℕ → ℤ
shift_right_ℤ (pos n) k = pos (n / 2 ^ k)
shift_right_ℤ (negsuc n) k = negsuc (n / 2 ^ k)

-- The values of a signed type of width w.
abbrev pub InRange : ℕ → ℤ → Type 0
InRange w (pos n) = 2 * n + 2 ≤ 2 ^ w
InRange w (negsuc n) = 2 * n + 2 ≤ 2 ^ w

-- A value in range comes back from its pattern.
pub signed_of-pattern_of : (w : ℕ) (z : ℤ) → InRange w z → signed_of w (pattern_of w z) ≡ z
signed_of-pattern_of w (pos n) h = rw (mod-eq_of_lt (below n (2 ^ w) h)) (ground arith)
  where
    below : (n m : ℕ) → 2 * n + 2 ≤ m → n < m
    below n m h = omega arith
signed_of-pattern_of w (negsuc n) h = rw (mod-eq_of_lt (below n (2 ^ w) h)) (ground arith)
  where
    below : (n m : ℕ) → 2 * n + 2 ≤ m → n < m
    below n m h = omega arith
