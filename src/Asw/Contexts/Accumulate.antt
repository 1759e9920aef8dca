-- ===== src/Asw/Contexts/Accumulate.antt =====
-- `mac` against the exact inner products.
use trace_fs.Base.{ℕ, zero, suc, ◌+◌, List, ◌≡◌, refl, ap, ◌∙◌}
use trace_fs.Base.Int.{ℤ, pos, ◌+ℤ◌, ◌*ℤ◌, int16, int32, InRange}
use trace_fs.Base.Residue.{
  int16-int16-add, int16-int32, int16-add-int32, +ℤ_assoc, +ℤ_zero, int16_lem, int16-InRange,
}
use trace_fs.Asw.Contexts.{at, accumulate, mac_from, mac, vector_length}

-- The exact sum of a number of products from index i on.
pub inner_product : ℕ → ℕ → List ℤ → List ℤ → ℤ
inner_product zero i xs ys = pos 0
inner_product (suc left) i xs ys = at xs i *ℤ at ys i +ℤ inner_product left (i + 1) xs ys

accumulate_lem : (acc p q : ℤ) → accumulate acc p q ≡ int16 (acc +ℤ p *ℤ q)
accumulate_lem acc p q = int16-int32 (acc +ℤ int32 (p *ℤ q)) ∙ int16-add-int32 acc (p *ℤ q)

-- One more product, and the rest of the sum.
accumulate-rest :
    (acc p q rest : ℤ) → int16 (accumulate acc p q +ℤ rest) ≡ int16 (acc +ℤ (p *ℤ q +ℤ rest))
accumulate-rest acc p q rest =
    ap (λ (z : ℤ). int16 (z +ℤ rest)) (accumulate_lem acc p q)
    ∙ int16-int16-add (acc +ℤ p *ℤ q) rest
    ∙ ap int16 (+ℤ_assoc acc (p *ℤ q) rest)

accumulate-InRange : (acc p q : ℤ) → InRange 16 (accumulate acc p q)
accumulate-InRange acc p q = int16-InRange (int32 (acc +ℤ int32 (p *ℤ q)))

mac_from_exact :
    (left i : ℕ) (a b : List ℤ) (sqr dotp : ℤ)
    → InRange 16 sqr
    → InRange 16 dotp
    → mac_from left i a b sqr dotp
      ≡ (int16 (sqr +ℤ inner_product left i b b), int16 (dotp +ℤ inner_product left i b a))
unfolding mac_from inner_product
mac_from_exact zero i a b sqr dotp hs hd =
    rw (+ℤ_zero sqr, +ℤ_zero dotp, int16_lem sqr hs, int16_lem dotp hd) refl
mac_from_exact (suc left) i a b sqr dotp hs hd =
    mac_from_exact left (i + 1) a b (accumulate sqr (at b i) (at b i))
      (accumulate dotp (at b i) (at a i)) (accumulate-InRange sqr (at b i) (at b i))
      (accumulate-InRange dotp (at b i) (at a i))
    ∙ rw
        (
          accumulate-rest sqr (at b i) (at b i) (inner_product left (i + 1) b b),
          accumulate-rest dotp (at b i) (at a i) (inner_product left (i + 1) b a),
        )
        refl

-- For any vectors, and for accumulators that are 16-bit values: `mac` returns the exact sum of the
-- squares of b on top of its argument, and stores the exact inner product of b and a on top of
-- `*sum`, both wrapped to 16 bits once, although the code wraps in each of its hundred rounds.
pub mac_exact :
    (a b : List ℤ) (sqr sum : ℤ)
    → InRange 16 sqr
    → InRange 16 sum
    → mac a b sqr sum ≡ (
      int16 (sqr +ℤ inner_product vector_length 0 b b),
      int16 (sum +ℤ inner_product vector_length 0 b a),
    )
unfolding mac
mac_exact a b sqr sum hs hd = mac_from_exact vector_length 0 a b sqr sum hs hd
