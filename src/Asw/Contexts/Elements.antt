-- ===== src/Asw/Contexts/Elements.antt =====
-- `vec_mpy1` element by element, and why its products fit an `int`.
use trace_fs.Base.{
  ℕ, zero, suc, ◌+◌, ◌*◌, ◌≤◌, ◌<◌, ◌≡◌, ◌⊎◌, inl, List, length, set, refl, ap, ◌∙◌, sym, arith,
  length-set, get_or-set_self, get_or-set_ne,
}
use trace_fs.Base.Int.{ℤ, pos, negsuc, ◌+ℤ◌, ◌*ℤ◌, int16, shift_right_ℤ, InRange}
use trace_fs.Base.Residue.{int32_lem}
use native.Mathlib.Decide.{ℕ_discrete}
use trace_fs.Asw.Contexts.{Contexts, at, scaled, vec_mpy1_from, vec_mpy1, math}
use trace_fs.Asw.Contexts.Accumulate.{inner_product, mac_exact}

product_le : (n m k : ℕ) → n ≤ k → m ≤ k → n * m ≤ k * k
product_le n m k hn hm = grind arith

-- The product of two 16-bit values.
product-InRange : (s x : ℤ) → InRange 16 s → InRange 16 x → InRange 32 (s *ℤ x)
unfolding ◌*ℤ◌
product-InRange (pos n) (pos m) hs hx =
    ground (arith, product_le n m 32767 (omega arith) (omega arith))
product-InRange (pos n) (negsuc m) hs hx =
    ground (arith, product_le n (suc m) 32768 (omega arith) (omega arith))
product-InRange (negsuc n) (pos m) hs hx =
    ground (arith, product_le (suc n) m 32768 (omega arith) (omega arith))
product-InRange (negsuc n) (negsuc m) hs hx =
    ground (arith, product_le (suc n) (suc m) 32768 (omega arith) (omega arith))

-- A 16-bit value and a 32-bit value shifted right by 15, added.
shifted_sum-InRange : (y z : ℤ) → InRange 16 y → InRange 32 z → InRange 32 (y +ℤ shift_right_ℤ z 15)
unfolding ◌+ℤ◌
shifted_sum-InRange (pos n) (pos m) hy hz = ground arith
shifted_sum-InRange (pos n) (negsuc m) hy hz = ground arith
shifted_sum-InRange (negsuc n) (pos m) hy hz = ground arith
shifted_sum-InRange (negsuc n) (negsuc m) hy hz = ground arith

-- On 16-bit values nothing overflows an `int`.
scaled_exact :
    (s y x : ℤ)
    → InRange 16 s
    → InRange 16 y
    → InRange 16 x
    → scaled s y x ≡ int16 (y +ℤ shift_right_ℤ (s *ℤ x) 15)
scaled_exact s y x hs hy hx =
    let product = product-InRange s x hs hx in
    rw
      (
        int32_lem (s *ℤ x) product,
        int32_lem (y +ℤ shift_right_ℤ (s *ℤ x) 15) (shifted_sum-InRange y (s *ℤ x) hy product),
      )
      refl

vec_mpy1_from-outside :
    (left i : ℕ) (y x : List ℤ) (s : ℤ) (p : ℕ)
    → (p < i) ⊎ (i + left ≤ p)
    → at (vec_mpy1_from left i y x s) p ≡ at y p
unfolding vec_mpy1_from
vec_mpy1_from-outside zero i y x s p out = refl
vec_mpy1_from-outside (suc left) i y x s p out =
    vec_mpy1_from-outside left (i + 1) (set y i (scaled s (at y i) (at x i))) x s p (ground arith)
    ∙ get_or-set_ne (pos 0) y i p (scaled s (at y i) (at x i)) (ground arith)

vec_mpy1_from-inside :
    (left i : ℕ) (y x : List ℤ) (s : ℤ) (p : ℕ)
    → i + left ≤ length y
    → i ≤ p
    → p < i + left
    → at (vec_mpy1_from left i y x s) p ≡ scaled s (at y p) (at x p)
unfolding vec_mpy1_from
vec_mpy1_from-inside zero i y x s p fits lo hi = absurd (omega arith)
vec_mpy1_from-inside (suc left) i y x s p fits lo hi = elim (ℕ_discrete p i) [
  | yes e ↦ rw e (
      vec_mpy1_from-outside left (i + 1) y' x s i (inl (omega arith))
      ∙ get_or-set_self (pos 0) y i new (omega arith))
  | no ne ↦
      vec_mpy1_from-inside left (i + 1) y' x s p (omega (arith, length-set y i new)) (omega arith)
        (omega arith)
      ∙ ap (λ (z : ℤ). scaled s z (at x p)) (get_or-set_ne (pos 0) y i p new (λ e. ne (sym e)))
]
  where
    new : ℤ
    new = scaled s (at y i) (at x i)

    y' : List ℤ
    y' = set y i new

-- On vectors and accumulators of 16-bit values: `math` adds to each element of `a` the product of
-- `c` and the element of `b`, shifted right by 15 and computed exactly, and wraps the sum to 16
-- bits; then it adds the exact squares of `b` to `c` and the exact products of `b` and the new `a`
-- to `output`, wrapped to 16 bits. `b` and the array that `bs` sorts stay as they are.
pub math_exact :
    (s : Contexts) (p : ℕ)
    → length s.a ≡ 100
    → p < 100
    → InRange 16 (at s.a p)
    → InRange 16 (at s.b p)
    → InRange 16 s.c
    → InRange 16 s.output
    → let s' = math s in
      (at s'.a p ≡ int16 (at s.a p +ℤ shift_right_ℤ (s.c *ℤ at s.b p) 15))
      × (s'.c ≡ int16 (s.c +ℤ inner_product 100 0 s.b s.b))
      × (s'.output ≡ int16 (s.output +ℤ inner_product 100 0 s.b s'.a))
      × (s'.b ≡ s.b)
      × (s'.arr ≡ s.arr)
unfolding math vec_mpy1
math_exact s p size h ha hb hc ho =
    let sums = mac_exact (vec_mpy1 s.a s.b s.c) s.b s.c s.output hc ho in
    (
      vec_mpy1_from-inside 100 0 s.a s.b s.c p (omega arith) (omega arith) (omega arith)
          ∙ scaled_exact s.c (at s.a p) (at s.b p) hc ha hb,
      ap (λ (r : ℤ × ℤ). r.0) sums,
      ap (λ (r : ℤ × ℤ). r.1) sums,
      refl,
      refl,
    )
