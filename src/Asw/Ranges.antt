-- ===== src/Asw/Ranges.antt =====
-- `min` and `max` are the least and the greatest of three, and `ISR2_minmax` stays in 32 bits.
use trace_fs.Base.{
  ℕ, ◌-◌, ◌*◌, ◌%◌, ◌^◌, ◌≤◌, ◌<◌, ◌≡◌, ◌⊎◌, inl, inr, Bool, true, false, ltb, ltb→lt, arith,
  Bool-cases, if◌then◌else◌,
}
use trace_fs.Base.Int.{ℤ, pos, negsuc, ◌≤ℤ◌, ◌+ℤ◌, ◌-ℤ◌, ◌*ℤ◌, signed_of, int32, InRange}
use trace_fs.Asw.Minmax.{leb_ℤ, swap, min, max, Vars, minmax_update, isr2_minmax}

-- For any three integers, `min` is one of them and at most each of them.
pub min-least :
    (a b c : ℤ)
    → let m = min a b c in (m ≤ℤ a) × (m ≤ℤ b) × (m ≤ℤ c) × ((m ≡ a) ⊎ ((m ≡ b) ⊎ (m ≡ c)))
unfolding min
min-least a b c = ground arith

-- For any three integers, `max` is one of them and at least each of them.
pub max-greatest :
    (a b c : ℤ)
    → let m = max a b c in (a ≤ℤ m) × (b ≤ℤ m) × (c ≤ℤ m) × ((m ≡ a) ⊎ ((m ≡ b) ⊎ (m ≡ c)))
unfolding max swap
max-greatest a b c = ground arith

above : (p : ℕ) → ltb (2 * p) (2 ^ 32) ≡ false → 2 ^ 32 ≤ 2 * p
above p h = ground arith

signed_of-InRange : (p : ℕ) → p < 2 ^ 32 → InRange 32 (signed_of 32 p)
signed_of-InRange p h = elim (Bool-cases (ltb (2 * p) (2 ^ 32))) [
  | inl small ↦ rw small (omega (arith, ltb→lt (2 * p) (2 ^ 32) small))
  | inr large ↦ rw large (omega (arith, above p large))
]

int32-InRange : (z : ℤ) → InRange 32 (int32 z)
int32-InRange (pos n) = signed_of-InRange (n % 2 ^ 32) (omega arith)
int32-InRange (negsuc n) = signed_of-InRange (2 ^ 32 - 1 - n % 2 ^ 32) (omega arith)

abbrev pub AllInRange : Vars → Type 0
AllInRange v = InRange 32 v.x × InRange 32 v.y × InRange 32 v.z × InRange 32 v.result

minmax_update-InRange : (v : Vars) → AllInRange v → AllInRange (minmax_update v)
unfolding minmax_update swap
minmax_update-InRange v (hx, hy, hz, hr) = elim (Bool-cases (leb_ℤ v.x v.y)) [
  | inl xy ↦ rw xy (hy, hx, hz, hr)
  | inr xy ↦ rw xy (elim (Bool-cases (leb_ℤ v.x v.z)) [
    | inl xz ↦ rw xz (int32-InRange (v.x +ℤ min v.x v.y v.z), hy, hz, hr)
    | inr xz ↦ rw xz (hx, hy, int32-InRange (v.z *ℤ max v.z v.y v.x), hr)
  ])
]

sum_or_difference : (b : Bool) (y z : ℤ) → InRange 32 (if b then int32 (y +ℤ z) else int32 (y -ℤ z))
sum_or_difference true y z = int32-InRange (y +ℤ z)
sum_or_difference false y z = int32-InRange (y -ℤ z)

-- The variables stay in the range of a 32-bit `int`, to which each store wraps.
pub isr2_minmax-InRange : (v : Vars) → AllInRange v → AllInRange (isr2_minmax v)
unfolding isr2_minmax
isr2_minmax-InRange v h =
    let v' = minmax_update v in
    let h' = minmax_update-InRange v h in
    (h'.0, h'.1, h'.2, sum_or_difference (leb_ℤ v'.y v'.z) v'.y v'.z)
