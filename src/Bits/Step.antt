-- ===== src/Bits/Step.antt =====
-- One equation for the lowest digit of `bit_and` and `bit_or`, from the recursion on digits that
-- the native operations stand for.
use Prim.Native.Nat.{digits, bit_and-bitwise, bit_or-bitwise}
use trace_fs.Base.{ℕ, zero, suc, ◌+◌, ◌*◌, ◌/◌, ◌%◌, ◌≤◌, bit_and, bit_or, min, max}
use trace_fs.Base.{◌≡◌, refl, arith, ap}

-- Two amounts of fuel that both suffice give one result.
module _ (rest : ℕ → ℕ) (op : ℕ → ℕ → ℕ) where
  same_digits :
      (a b fuel more : ℕ) → a ≤ fuel → a ≤ more → digits rest op fuel a b ≡ digits rest op more a b
  same_digits zero b zero zero p q = refl
  same_digits zero b zero (suc more) p q = refl
  same_digits zero b (suc fuel) zero p q = refl
  same_digits zero b (suc fuel) (suc more) p q = refl
  same_digits (suc a) b zero more p q = absurd (omega arith)
  same_digits (suc a) b (suc fuel) zero p q = absurd (omega arith)
  same_digits (suc a) b (suc fuel) (suc more) p q =
      let halves = same_digits (suc a / 2) (b / 2) fuel more (omega arith) (omega arith) in
      ap (λ (t : ℕ). t * 2 + op (suc a % 2) (b % 2)) halves

pub bit_and_step : (a b : ℕ) → bit_and a b ≡ bit_and (a / 2) (b / 2) * 2 + min (a % 2) (b % 2)
bit_and_step zero b = omega (arith, bit_and-bitwise 0 b, bit_and-bitwise 0 (b / 2))
bit_and_step (suc a) b = omega (
  arith,
  bit_and-bitwise (suc a) b,
  bit_and-bitwise (suc a / 2) (b / 2),
  same_digits (λ _. 0) min (suc a / 2) (b / 2) a (suc a / 2) (omega arith) (omega arith),
)

pub bit_or_step : (a b : ℕ) → bit_or a b ≡ bit_or (a / 2) (b / 2) * 2 + max (a % 2) (b % 2)
bit_or_step zero b = omega (arith, bit_or-bitwise 0 b, bit_or-bitwise 0 (b / 2))
bit_or_step (suc a) b = omega (
  arith,
  bit_or-bitwise (suc a) b,
  bit_or-bitwise (suc a / 2) (b / 2),
  same_digits (λ d. d) max (suc a / 2) (b / 2) a (suc a / 2) (omega arith) (omega arith),
)
