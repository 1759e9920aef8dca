-- ===== src/Asw/Contexts/Sorted.antt =====
-- `bs` sorts `arr[1..10]` downwards.
use native.Mathlib.Nat.{add-zero}
use native.Mathlib.Decide.{ℕ_discrete}
use mathlib.Core.List.{Perm}
use mathlib.Core.List.Perm
use trace_fs.Base.{
  ℕ, zero, suc, ◌+◌, ◌≤◌, ◌<◌, ◌≡◌, ◌⊎◌, inl, inr, List, length, lt→ltb, arith, refl, ◌∙◌,
}
use trace_fs.Base.Int.{ℤ, ◌≤ℤ◌}
use trace_fs.Asw.Contexts.{Contexts, at, compare_swap, bs_inner, bs_outer, bs}
use trace_fs.Asw.Contexts.Exchange.{
  compare_swap-perm, length-compare_swap, compare_swap-other, compare_swap-LowerTo,
  compare_swap-min, LowerTo,
}

-- The inner loop, where its rounds stay in the array.
length-bs_inner :
    (left j : ℕ) (xs : List ℤ) → j + left < length xs → length (bs_inner left j xs) ≡ length xs
unfolding bs_inner
length-bs_inner zero j xs h = refl
length-bs_inner (suc left) j xs h =
    let same = length-compare_swap j xs (omega arith) in
    length-bs_inner left (j + 1) (compare_swap j xs) (omega arith) ∙ same

bs_inner-perm : (left j : ℕ) (xs : List ℤ) → j + left < length xs → Perm (bs_inner left j xs) xs
unfolding bs_inner
bs_inner-perm zero j xs h = Perm.rfl
bs_inner-perm (suc left) j xs h =
    let same = length-compare_swap j xs (omega arith) in
    Perm.trans (bs_inner-perm left (j + 1) (compare_swap j xs) (omega arith))
      (compare_swap-perm j xs (omega arith))

-- It touches no element before its first place and none behind its last.
bs_inner-other :
    (left j : ℕ) (xs : List ℤ) (p : ℕ)
    → j + left < length xs
    → (p < j) ⊎ (j + left < p)
    → at (bs_inner left j xs) p ≡ at xs p
unfolding bs_inner
bs_inner-other zero j xs p h out = refl
bs_inner-other (suc left) j xs p h out =
    let same = length-compare_swap j xs (omega arith) in
    bs_inner-other left (j + 1) (compare_swap j xs) p (omega arith) (ground arith)
    ∙ compare_swap-other j xs (omega arith) p (ground arith) (ground arith)

bs_inner-LowerTo :
    (left j n : ℕ) (c : ℤ) (xs : List ℤ)
    → j + left < length xs
    → 1 ≤ j
    → j + left ≤ n
    → LowerTo n c xs
    → LowerTo n c (bs_inner left j xs)
unfolding bs_inner
bs_inner-LowerTo zero j n c xs h hj hn low = low
bs_inner-LowerTo (suc left) j n c xs h hj hn low =
    let same = length-compare_swap j xs (omega arith) in
    bs_inner-LowerTo left (j + 1) n c (compare_swap j xs) (omega arith) (omega arith) (omega arith)
      (compare_swap-LowerTo j n c xs (omega arith) hj (omega arith) low)

-- The place that the loop has reached holds the least element so far.
bs_inner-min :
    (left j : ℕ) (xs : List ℤ)
    → j + left < length xs
    → 1 ≤ j
    → LowerTo j (at xs j) xs
    → LowerTo (j + left) (at (bs_inner left j xs) (j + left)) (bs_inner left j xs)
unfolding bs_inner
bs_inner-min zero j xs h hj low = rw add-zero low
bs_inner-min (suc left) j xs h hj low =
    let same = length-compare_swap j xs (omega arith) in
    let place : j + 1 + left ≡ j + suc left = omega arith in
    rw place at (
      bs_inner-min left (j + 1) (compare_swap j xs) (omega arith) (omega arith)
        (compare_swap-min j xs (omega arith) low))

-- Before the round for bound i: behind place i the array descends, and nothing there exceeds any
-- element from the first to place i.
record IsDone (i : ℕ) (xs : List ℤ) : Type 0 where
  size : length xs ≡ 11
  tail : (p q : ℕ) → i < p → p < q → q ≤ 10 → at xs q ≤ℤ at xs p
  below : (q : ℕ) → i < q → q ≤ 10 → LowerTo i (at xs q) xs

bs_inner-IsDone :
    (k : ℕ) (xs : List ℤ) → 1 ≤ k → k < 10 → IsDone (suc k) xs → IsDone k (bs_inner k 1 xs)
bs_inner-IsDone k xs hk hb d = record {
  size = length-bs_inner k 1 xs fits ∙ d.size;
  tail = λ p q hp hq ht. elim (ℕ_discrete p (suc k)) [
    | yes e ↦
        rw (e, kept q (omega (arith, e)))
          (raised q (omega (arith, e)) ht (suc k) (omega arith) (omega arith))
    | no ne ↦ rw (kept p (omega arith), kept q (omega arith)) (d.tail p q (omega arith) hq ht)
  ];
  below = λ q hq ht p h1 hp. elim (ℕ_discrete q (suc k)) [
    | yes e ↦ rw e (least p h1 (omega arith))
    | no ne ↦ rw (kept q (omega arith)) (raised q (omega arith) ht p h1 (omega arith))
  ];
}
  where
    fits : 1 + k < length xs
    fits = omega (arith, d.size)

    kept : (p : ℕ) → suc k < p → at (bs_inner k 1 xs) p ≡ at xs p
    kept p h = bs_inner-other k 1 xs p fits (inr (omega arith))

    first : LowerTo 1 (at xs 1) xs
    first p h1 hp = let e : p ≡ 1 = omega arith in rw e (omega arith)

    least : LowerTo (suc k) (at (bs_inner k 1 xs) (suc k)) (bs_inner k 1 xs)
    least =
        let place : 1 + k ≡ suc k = omega arith in
        rw place at (bs_inner-min k 1 xs fits (omega arith) first)

    raised : (q : ℕ) → suc k < q → q ≤ 10 → LowerTo (suc k) (at xs q) (bs_inner k 1 xs)
    raised q hq ht =
        bs_inner-LowerTo k 1 (suc k) (at xs q) xs fits (omega arith) (omega arith) (d.below q hq ht)

-- The array behind the outer loop.
bs_outer-sorted :
    (i : ℕ) (xs : List ℤ) (p q : ℕ)
    → i ≤ 10
    → IsDone i xs
    → 1 ≤ p
    → p < q
    → q ≤ 10
    → at (bs_outer i xs) q ≤ℤ at (bs_outer i xs) p
unfolding bs_outer
bs_outer-sorted zero xs p q hi d hp hq ht = d.tail p q hp hq ht
bs_outer-sorted (suc zero) xs p q hi d hp hq ht = elim (ℕ_discrete p 1) [
  | yes e ↦ d.below q (omega arith) ht p hp (omega arith)
  | no ne ↦ d.tail p q (omega arith) hq ht
]
bs_outer-sorted (suc (suc k)) xs p q hi d hp hq ht = rw (lt→ltb 1 (suc (suc k)) (omega arith)) (
    bs_outer-sorted (suc k) (bs_inner (suc k) 1 xs) p q (omega arith)
      (bs_inner-IsDone (suc k) xs (omega arith) (omega arith) d) hp hq ht)

bs_outer-kept :
    (i : ℕ) (xs : List ℤ)
    → i < length xs
    → Perm (bs_outer i xs) xs
      × (length (bs_outer i xs) ≡ length xs)
      × (at (bs_outer i xs) 0 ≡ at xs 0)
unfolding bs_outer
bs_outer-kept zero xs h = (Perm.rfl, refl, refl)
bs_outer-kept (suc zero) xs h = (Perm.rfl, refl, refl)
bs_outer-kept (suc (suc k)) xs h =
    let size = length-bs_inner (suc k) 1 xs (omega arith) in
    let rest = bs_outer-kept (suc k) (bs_inner (suc k) 1 xs) (omega arith) in
    rw (lt→ltb 1 (suc (suc k)) (omega arith)) (
      Perm.trans rest.0 (bs_inner-perm (suc k) 1 xs (omega arith)),
      rest.1 ∙ size,
      rest.2 ∙ bs_inner-other (suc k) 1 xs 0 (omega arith) (inl (omega arith)),
    )

-- On an array of the declared eleven elements, `bs` puts the elements at 1 to 10 in descending
-- order: of any two places the later one holds no greater element. The whole array is a
-- permutation of what it was, element 0 stays, and so do the vectors that `math` works on.
pub bs-sorts :
    (s : Contexts) (p q : ℕ)
    → length s.arr ≡ 11
    → 1 ≤ p
    → p < q
    → q ≤ 10
    → let s' = bs s in
      (at s'.arr q ≤ℤ at s'.arr p)
      × Perm s'.arr s.arr
      × (at s'.arr 0 ≡ at s.arr 0)
      × (s' ≡ record s { arr = s'.arr })
unfolding bs
bs-sorts s p q size hp hq ht =
    let kept = bs_outer-kept 10 s.arr (omega arith) in
    (bs_outer-sorted 10 s.arr p q (omega arith) start hp hq ht, kept.0, kept.2, refl)
  where
    start : IsDone 10 s.arr
    start = record {
      size = size;
      tail = λ p q hp hq ht. absurd (omega arith);
      below = λ q hq ht p h1 hp. absurd (omega arith);
    }
