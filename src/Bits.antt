-- ===== src/Bits.antt =====
-- Laws of `&` and `|` at every width: what they do to each bit, to disjoint fields and to masks.
mod Step
pub mod Field
use Step.{bit_and_step, bit_or_step}
use Prim.Native.Nat.{bit_or-bitwise}
use native.Mathlib.Nat.{pow-suc, pow-succ', one-le-pow, div-div-eq-div-mul}
use trace_fs.Base.{ℕ, zero, suc, ◌+◌, ◌-◌, ◌*◌, ◌/◌, ◌%◌, ◌^◌, ◌≤◌, ◌<◌, bit_and, bit_or, min, max}
use trace_fs.Base.{◌≡◌, refl, arith, ap, sym, ◌∙◌, bit_at}

-- Halving a number k + 1 times is halving its half k times.
shift_suc : (a k : ℕ) → a / 2 ^ suc k ≡ a / 2 / 2 ^ k
shift_suc a k = rw (pow-succ', ← div-div-eq-div-mul) refl

pub bit_at-bit_and : (i a b : ℕ) → bit_at i (bit_and a b) ≡ min (bit_at i a) (bit_at i b)
bit_at-bit_and zero a b = omega (arith, bit_and_step a b)
bit_at-bit_and (suc i) a b =
    let halved : bit_and a b / 2 ≡ bit_and (a / 2) (b / 2) = omega (arith, bit_and_step a b) in
    rw (shift_suc, shift_suc, shift_suc, halved) (bit_at-bit_and i (a / 2) (b / 2))

pub bit_at-bit_or : (i a b : ℕ) → bit_at i (bit_or a b) ≡ max (bit_at i a) (bit_at i b)
bit_at-bit_or zero a b = omega (arith, bit_or_step a b)
bit_at-bit_or (suc i) a b =
    let halved : bit_or a b / 2 ≡ bit_or (a / 2) (b / 2) = omega (arith, bit_or_step a b) in
    rw (shift_suc, shift_suc, shift_suc, halved) (bit_at-bit_or i (a / 2) (b / 2))

zero_right : (fuel a : ℕ) → a ≤ fuel → (bit_and a 0 ≡ 0) × (bit_or a 0 ≡ a)
zero_right fuel zero h = (refl, refl)
zero_right zero (suc a) h = absurd (omega arith)
zero_right (suc fuel) (suc a) h =
    let half = zero_right fuel (suc a / 2) (omega arith) in
    omega (arith, bit_and_step (suc a) 0, bit_or_step (suc a) 0, half.0, half.1)

pub bit_and-zero : (a : ℕ) → bit_and a 0 ≡ 0
bit_and-zero a = (zero_right a a (omega arith)).0

pub bit_or-zero : (a : ℕ) → bit_or a 0 ≡ a
bit_or-zero a = (zero_right a a (omega arith)).1

double_shift : (m k : ℕ) → m * 2 ^ suc k ≡ 2 * (m * 2 ^ k)
double_shift m k = grind (arith, pow-suc 2 k)

halve_double : (m k : ℕ) → m * 2 ^ suc k / 2 ≡ m * 2 ^ k
halve_double m k = omega (arith, double_shift m k)

one_mul : (m : ℕ) → m * 2 ^ 0 ≡ m
one_mul m = omega arith

halve_ones : (k : ℕ) → (2 ^ suc k - 1) / 2 ≡ 2 ^ k - 1
halve_ones k = omega (arith, one-le-pow k 2, pow-suc 2 k)

one_div : (m : ℕ) → m / 2 ^ 0 ≡ m
one_div m = omega arith

mod_suc : (a k : ℕ) → a % 2 ^ suc k ≡ a / 2 % 2 ^ k * 2 + a % 2
mod_suc a k = omega (
  arith,
  one-le-pow k 2,
  pow-suc 2 k,
  double_shift (a / 2 / 2 ^ k) k,
  ap (λ (t : ℕ). t * 2 ^ suc k) (shift_suc a k),
)

pub zero-bit_or : (a : ℕ) → bit_or 0 a ≡ a
zero-bit_or a = bit_or-bitwise 0 a

plus_zero : (m : ℕ) → m + 0 ≡ m
plus_zero m = omega arith

zero_plus : (k r : ℕ) → 0 * 2 ^ k + r ≡ r
zero_plus k r = omega arith

halve_field : (k m r : ℕ) → (m * 2 ^ suc k + r) / 2 ≡ m * 2 ^ k + r / 2
halve_field k m r = omega (arith, double_shift m k)

halve_mod : (a k : ℕ) → a % 2 ^ suc k / 2 ≡ a / 2 % 2 ^ k
halve_mod a k = omega (arith, mod_suc a k)

-- `&` acts on the part above bit k and on the part below it apart.
pub bit_and_split :
    (k m r a : ℕ)
    → r < 2 ^ k
    → bit_and a (m * 2 ^ k + r) ≡ bit_and (a / 2 ^ k) m * 2 ^ k + bit_and (a % 2 ^ k) r
bit_and_split zero m r a h =
    rw (one_mul m, one_div a, lone r h, bit_and-zero, plus_zero m) (omega arith)
  where
    lone : (r : ℕ) → r < 1 → r ≡ 0
    lone r h = omega arith
bit_and_split (suc k) m r a h = omega (
  arith,
  bit_and_step a (m * 2 ^ suc k + r),
  ap (λ (t : ℕ). bit_and (a / 2) t) (halve_field k m r),
  bit_and_split k m (r / 2) (a / 2) (omega (arith, pow-suc 2 k)),
  double_shift (bit_and (a / 2 / 2 ^ k) m) k,
  ap (λ (t : ℕ). bit_and t m * 2 ^ suc k) (shift_suc a k),
  bit_and_step (a % 2 ^ suc k) r,
  ap (λ (t : ℕ). bit_and t (r / 2)) (halve_mod a k),
  mod_suc a k,
  double_shift m k,
)

-- `&` with k ones is the remainder by 2 ^ k.
pub bit_and_ones : (k a : ℕ) → bit_and a (2 ^ k - 1) ≡ a % 2 ^ k
bit_and_ones zero a = rw bit_and-zero (omega arith)
bit_and_ones (suc k) a = omega (
  arith,
  bit_and_step a (2 ^ suc k - 1),
  pow-suc 2 k,
  one-le-pow k 2,
  ap (λ (t : ℕ). bit_and (a / 2) t) (halve_ones k),
  bit_and_ones k (a / 2),
  mod_suc a k,
)

-- `|` acts on the part above bit k and on the part below it apart.
pub bit_or_split :
    (k q r q' r' : ℕ)
    → r < 2 ^ k
    → r' < 2 ^ k
    → bit_or (q * 2 ^ k + r) (q' * 2 ^ k + r') ≡ bit_or q q' * 2 ^ k + bit_or r r'
bit_or_split zero q r q' r' h h' =
    rw (one_mul q, one_mul q', lone r h, lone r' h', plus_zero q, plus_zero q') (omega arith)
  where
    lone : (r : ℕ) → r < 1 → r ≡ 0
    lone r h = omega arith
bit_or_split (suc k) q r q' r' h h' = omega (
  arith,
  bit_or_step (q * 2 ^ suc k + r) (q' * 2 ^ suc k + r'),
  ap (λ (t : ℕ). bit_or t ((q' * 2 ^ suc k + r') / 2)) (halve_field k q r),
  ap (λ (t : ℕ). bit_or (q * 2 ^ k + r / 2) t) (halve_field k q' r'),
  bit_or_split k q (r / 2) q' (r' / 2) (omega (arith, pow-suc 2 k)) (omega (arith, pow-suc 2 k)),
  bit_or_step r r',
  double_shift (bit_or q q') k,
  double_shift q k,
  double_shift q' k,
)

-- `|` of a number and a field below it is their sum.
pub bit_or_field : (k q r : ℕ) → r < 2 ^ k → bit_or (q * 2 ^ k) r ≡ q * 2 ^ k + r
bit_or_field k q r h = omega (
  arith,
  bit_or_split k q 0 0 r (one-le-pow k 2 (omega arith)) h,
  ap (λ (t : ℕ). bit_or t r) (plus_zero (q * 2 ^ k)),
  ap (λ (t : ℕ). bit_or (q * 2 ^ k + 0) t) (zero_plus k r),
  bit_or-zero q,
  zero-bit_or r,
  ap (λ (t : ℕ). t * 2 ^ k) (bit_or-zero q),
)

-- `|` puts a field of j bits into a gap of j bits above bit k.
pub bit_or_gap :
    (j k q v r : ℕ)
    → v < 2 ^ j
    → r < 2 ^ k
    → bit_or (q * 2 ^ j * 2 ^ k + r) (v * 2 ^ k) ≡ (q * 2 ^ j + v) * 2 ^ k + r
bit_or_gap j k q v r hv hr = omega (
  arith,
  bit_or_split k (q * 2 ^ j) r v 0 hr (one-le-pow k 2 (omega arith)),
  ap (λ (t : ℕ). bit_or (q * 2 ^ j * 2 ^ k + r) t) (plus_zero (v * 2 ^ k)),
  bit_or-zero r,
  ap (λ (t : ℕ). t * 2 ^ k) (bit_or_field j q v hv),
)

mod_pow : (w k : ℕ) → w % 2 ^ k < 2 ^ k
mod_pow w k = omega (arith, one-le-pow k 2)

div_pow : (w k : ℕ) → w / 2 ^ k * 2 ^ k + w % 2 ^ k ≡ w
div_pow w k = omega arith

one_pow : (k : ℕ) → 1 * 2 ^ k + 0 ≡ 2 ^ k
one_pow k = omega arith

bit_or-one : (a : ℕ) → bit_or a 1 ≡ a / 2 * 2 + 1
bit_or-one a = omega (arith, bit_or_step a 1, bit_or-zero (a / 2))

shift_suc_right : (w k : ℕ) → w / 2 ^ k / 2 ≡ w / 2 ^ suc k
shift_suc_right w k = rw (pow-suc, ← div-div-eq-div-mul)

-- `|` with one bit sets it.
pub bit_or_bit : (k w : ℕ) → bit_or w (2 ^ k) ≡ w / 2 ^ suc k * 2 ^ suc k + 2 ^ k + w % 2 ^ k
bit_or_bit k w = omega (
  arith,
  bit_or_split k (w / 2 ^ k) (w % 2 ^ k) 1 0 (mod_pow w k) (one-le-pow k 2 (omega arith)),
  ap (λ (t : ℕ). bit_or t (1 * 2 ^ k + 0)) (div_pow w k),
  ap (λ (t : ℕ). bit_or w t) (one_pow k),
  bit_or-zero (w % 2 ^ k),
  ap (λ (t : ℕ). t * 2 ^ k) (bit_or-one (w / 2 ^ k)),
  ap (λ (t : ℕ). t * 2 ^ suc k) (shift_suc_right w k),
  double_shift (w / 2 ^ k / 2) k,
)
