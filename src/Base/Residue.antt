-- ===== src/Base/Residue.antt =====
-- Wrapping on 16 and 32 bits as residues: a wrapped sum depends on its parts' residues only.
use Prim.Native.Nat.{ℕ, ◌+◌, ◌*◌, ◌%◌, ◌<◌}
use mathlib.Core.Path.{◌≡◌, ap}
use mathlib.Core.Logic.{inl, inr}
use native.Mathlib.Omega.{arith}
use trace_fs.Base.Tests.{Bool-cases, ltb}
use trace_fs.Base.Int.{
  ℤ, pos, negsuc, pos_part, neg_part, ◌+ℤ◌, int16, int32, pattern_of, signed_of, InRange,
  signed_of-pattern_of,
}

pub +ℤ_parts :
    (a b : ℤ)
    → pos_part (a +ℤ b) + neg_part a + neg_part b ≡ neg_part (a +ℤ b) + pos_part a + pos_part b
unfolding ◌+ℤ◌
+ℤ_parts a b = ground arith

pub eq_of_parts : (a b : ℤ) → pos_part a + neg_part b ≡ pos_part b + neg_part a → a ≡ b
eq_of_parts a b h = ground arith

-- The pattern of an integer is its residue.
residue_16 :
    (z : ℤ)
    → (pattern_of 16 z < 65536) × ((pattern_of 16 z + neg_part z) % 65536 ≡ pos_part z % 65536)
residue_16 (pos n) = omega arith
residue_16 (negsuc n) = omega arith

residue_32 :
    (z : ℤ)
    → (pattern_of 32 z < 4294967296)
      × ((pattern_of 32 z + neg_part z) % 4294967296 ≡ pos_part z % 4294967296)
residue_32 (pos n) = omega arith
residue_32 (negsuc n) = omega arith

pattern-int16 : (z : ℤ) → pattern_of 16 (int16 z) ≡ pattern_of 16 z
pattern-int16 z = ground (arith, residue_16 z)

pattern-int32 : (z : ℤ) → pattern_of 16 (int32 z) ≡ pattern_of 16 z
pattern-int32 z = ground (arith, residue_16 z, residue_32 z)

pub int16_of_pattern : (a b : ℤ) → pattern_of 16 a ≡ pattern_of 16 b → int16 a ≡ int16 b
int16_of_pattern a b e = ap (signed_of 16) e

pattern-add : (a b : ℤ) → pattern_of 16 (a +ℤ b) ≡ (pattern_of 16 a + pattern_of 16 b) % 65536
pattern-add a b = omega (arith, residue_16 a, residue_16 b, residue_16 (a +ℤ b), +ℤ_parts a b)

-- A wrap inside a wrapped sum may be left out.
pub int16-int16-add : (a b : ℤ) → int16 (int16 a +ℤ b) ≡ int16 (a +ℤ b)
int16-int16-add a b =
    int16_of_pattern (int16 a +ℤ b) (a +ℤ b)
      (omega (arith, pattern-add (int16 a) b, pattern-add a b, pattern-int16 a))

pub int16-int32 : (a : ℤ) → int16 (int32 a) ≡ int16 a
int16-int32 a = int16_of_pattern (int32 a) a (pattern-int32 a)

pub int16-add-int32 : (a b : ℤ) → int16 (a +ℤ int32 b) ≡ int16 (a +ℤ b)
int16-add-int32 a b =
    int16_of_pattern (a +ℤ int32 b) (a +ℤ b)
      (omega (arith, pattern-add a (int32 b), pattern-add a b, pattern-int32 b))

pub +ℤ_assoc : (a b c : ℤ) → a +ℤ b +ℤ c ≡ a +ℤ (b +ℤ c)
+ℤ_assoc a b c =
    eq_of_parts (a +ℤ b +ℤ c) (a +ℤ (b +ℤ c))
      (omega (arith, +ℤ_parts a b, +ℤ_parts (a +ℤ b) c, +ℤ_parts b c, +ℤ_parts a (b +ℤ c)))

pub +ℤ_zero : (a : ℤ) → a +ℤ pos 0 ≡ a
+ℤ_zero a = eq_of_parts (a +ℤ pos 0) a (omega (arith, +ℤ_parts a (pos 0)))

pub int16_lem : (z : ℤ) → InRange 16 z → int16 z ≡ z
int16_lem z h = signed_of-pattern_of 16 z h

pub int32_lem : (z : ℤ) → InRange 32 z → int32 z ≡ z
int32_lem z h = signed_of-pattern_of 32 z h

pub int16-InRange : (z : ℤ) → InRange 16 (int16 z)
int16-InRange z = in_range (pattern_of 16 z) (residue_16 z).0
  where
    in_range : (p : ℕ) → p < 65536 → InRange 16 (signed_of 16 p)
    in_range p h = elim (Bool-cases (ltb (2 * p) 65536)) [
      | inl small ↦ rw small (ground arith)
      | inr large ↦ rw large (ground arith)
    ]
