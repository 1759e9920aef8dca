-- ===== src/Asw/Contexts/Exchange.antt =====
-- One round of the inner loop of `bs`, on two neighbours of an array.

use native.Mathlib.Decide.{ℕ_discrete}
use mathlib.Core.List.{Perm}
use mathlib.Core.List.Perm
use trace_fs.Base.{
  ℕ, zero, suc, ◌+◌, ◌≤◌, ◌<◌, ◌≡◌, ◌≢◌, ◌⊎◌, inl, inr, List, [], ◌∷◌, length, set, arith, refl,
  sym, ◌∙◌, length-set, get_or-set_self, get_or-set_ne,
}
use trace_fs.Base.Int.{ℤ, pos, ◌≤ℤ◌}
use trace_fs.Asw.Contexts.{at, compare_swap}

-- Two neighbours, exchanged.
abbrev exchanged : ℕ → List ℤ → List ℤ
exchanged j xs = set (set xs j (at xs (j + 1))) (j + 1) (at xs j)

exchanged-perm : (j : ℕ) (xs : List ℤ) → j + 1 < length xs → Perm (exchanged j xs) xs
exchanged-perm zero (x ∷ y ∷ xs) h = Perm.swap x y xs
exchanged-perm (suc j) (x ∷ xs) h =
    let next : suc j + 1 ≡ suc (j + 1) = omega arith in
    rw next (Perm.cons x (exchanged-perm j xs (omega arith)))
exchanged-perm j [] h = absurd (omega arith)
exchanged-perm zero (x ∷ []) h = absurd (omega arith)

module _ (j : ℕ) (xs : List ℤ) (h : j + 1 < length xs) where
  exchanged-first : at (exchanged j xs) j ≡ at xs (j + 1)
  exchanged-first =
      get_or-set_ne (pos 0) (set xs j (at xs (j + 1))) (j + 1) j (at xs j) (omega arith)
      ∙ get_or-set_self (pos 0) xs j (at xs (j + 1)) (omega arith)

  exchanged-second : at (exchanged j xs) (j + 1) ≡ at xs j
  exchanged-second =
      get_or-set_self (pos 0) (set xs j (at xs (j + 1))) (j + 1) (at xs j)
        (omega (arith, length-set xs j (at xs (j + 1))))

  exchanged-other : (p : ℕ) → p ≢ j → p ≢ j + 1 → at (exchanged j xs) p ≡ at xs p
  exchanged-other p nj ns =
      get_or-set_ne (pos 0) (set xs j (at xs (j + 1))) (j + 1) p (at xs j) (λ e. ns (sym e))
      ∙ get_or-set_ne (pos 0) xs j p (at xs (j + 1)) (λ e. nj (sym e))

  -- A round exchanges two neighbours, the first of which is the smaller, or leaves all as it is.
  compare_swap-cases :
      ((compare_swap j xs ≡ exchanged j xs) × (at xs j ≤ℤ at xs (j + 1)))
      ⊎ ((compare_swap j xs ≡ xs) × (at xs (j + 1) ≤ℤ at xs j))
  unfolding compare_swap
  compare_swap-cases = ground arith

  pub compare_swap-perm : Perm (compare_swap j xs) xs
  compare_swap-perm = elim compare_swap-cases [
    | inl (e, _) ↦ rw e (exchanged-perm j xs h)
    | inr (e, _) ↦ rw e Perm.rfl
  ]

  pub length-compare_swap : length (compare_swap j xs) ≡ length xs
  length-compare_swap = elim compare_swap-cases [
    | inl (e, _) ↦
        rw e (
          length-set (set xs j (at xs (j + 1))) (j + 1) (at xs j) ∙ length-set xs j (at xs (j + 1)))
    | inr (e, _) ↦ rw e refl
  ]

  -- The second place then holds the smaller of the two, and the first the greater.
  compare_swap-order :
      (at (compare_swap j xs) (j + 1) ≤ℤ at (compare_swap j xs) j)
      × (at (compare_swap j xs) (j + 1) ≤ℤ at xs j)
  compare_swap-order = elim compare_swap-cases [
    | inl (e, le) ↦ rw (e, exchanged-first, exchanged-second) (omega (arith, le))
    | inr (e, le) ↦ rw e (omega (arith, le))
  ]

  compare_swap-lower :
      (c : ℤ)
      → c ≤ℤ at xs j
      → c ≤ℤ at xs (j + 1)
      → (c ≤ℤ at (compare_swap j xs) j) × (c ≤ℤ at (compare_swap j xs) (j + 1))
  compare_swap-lower c hj hs = elim compare_swap-cases [
    | inl (e, _) ↦ rw (e, exchanged-first, exchanged-second) (hs, hj)
    | inr (e, _) ↦ rw e (hj, hs)
  ]

  pub compare_swap-other : (p : ℕ) → p ≢ j → p ≢ j + 1 → at (compare_swap j xs) p ≡ at xs p
  compare_swap-other p nj ns = elim compare_swap-cases [
    | inl (e, _) ↦ rw e (exchanged-other p nj ns)
    | inr (e, _) ↦ rw e refl
  ]

-- All elements from the first to place n are at least c.
abbrev pub LowerTo : ℕ → ℤ → List ℤ → Type 0
LowerTo n c xs = (p : ℕ) → 1 ≤ p → p ≤ n → c ≤ℤ at xs p

pub compare_swap-LowerTo :
    (j n : ℕ) (c : ℤ) (xs : List ℤ)
    → j + 1 < length xs
    → 1 ≤ j
    → j + 1 ≤ n
    → LowerTo n c xs
    → LowerTo n c (compare_swap j xs)
compare_swap-LowerTo j n c xs h hj hn low p h1 hp =
    let both =
      compare_swap-lower j xs h c (low j hj (omega arith)) (low (j + 1) (omega arith) hn) in
    elim (ℕ_discrete p j) [
      | yes e ↦ rw e both.0
      | no nj ↦ elim (ℕ_discrete p (j + 1)) [
        | yes e ↦ rw e both.1
        | no ns ↦ rw (compare_swap-other j xs h p nj ns) (low p h1 hp)
      ]
    ]

pub compare_swap-min :
    (j : ℕ) (xs : List ℤ)
    → j + 1 < length xs
    → LowerTo j (at xs j) xs
    → LowerTo (j + 1) (at (compare_swap j xs) (j + 1)) (compare_swap j xs)
compare_swap-min j xs h low p h1 hp =
    let order = compare_swap-order j xs h in
    elim (ℕ_discrete p j) [
      | yes e ↦ rw e order.0
      | no nj ↦ elim (ℕ_discrete p (j + 1)) [
        | yes e ↦ rw e (omega arith)
        | no ns ↦
            rw (compare_swap-other j xs h p nj ns) (omega (arith, low p h1 (omega arith), order.1))
      ]
    ]
