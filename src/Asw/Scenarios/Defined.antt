-- ===== src/Asw/Scenarios/Defined.antt =====
-- Where `f` and `task_100ms_nexus` are defined.
use trace_fs.Base.{
  is_some, ℕ, zero, suc, ◌%◌, ◌<◌, ◌≡◌, ◌⊎◌, inl, inr, Option, none, some, Bool, true, false, not,
  ◌&&◌, ◌||◌, ltb, ◌==◌, arith, refl, ap, Bool-cases, get_elem?, if◌then◌else◌, ◌∙◌,
}
use trace_fs.Base.Int.{ℤ, pos, negsuc}
use trace_fs.Asw.Scenarios.{
  Scenario, init_vector, test_bit, int_div, int_shift_right, summed, divided, shifted, masked,
  shifted_masked, f, init_value, is_third, store_y, task_100ms_nexus,
}

-- A number by which an `int` may be shifted.
abbrev pub is_shift : ℤ → Bool
is_shift (pos k) = ltb k 32
is_shift (negsuc k) = false

-- The divisor is never 0 where the code divides, and where it is -1 the shift that follows is
-- undefined as well.
divided-cases : (r x : ℤ) → (is_some (divided r x) ≡ true) ⊎ (x ≡ negsuc 0)
unfolding divided
divided-cases r (pos zero) = inl refl
divided-cases r (pos (suc n)) = inl (by_bit (test_bit 3 (pos (suc n))))
  where
    by_bit : (b : Bool) → is_some (if b then int_div r (pos (suc n)) else some r) ≡ true
    by_bit true = refl
    by_bit false = refl
divided-cases r (negsuc zero) = inr refl
divided-cases r (negsuc (suc n)) = inl (by_bit (test_bit 3 (negsuc (suc n))))
  where
    by_bit : (b : Bool) → is_some (if b then int_div r (negsuc (suc n)) else some r) ≡ true
    by_bit true = refl
    by_bit false = refl

is_some-int_shift_right : (r x : ℤ) → is_some (int_shift_right r x) ≡ is_shift x
is_some-int_shift_right r (pos k) = ground arith
is_some-int_shift_right r (negsuc k) = refl

is_some-shifted : (r x : ℤ) → is_some (shifted r x) ≡ (not (test_bit 4 x) || is_shift x)
unfolding shifted
is_some-shifted r x = by_bit (test_bit 4 x)
  where
    by_bit :
        (b : Bool) → is_some (if b then int_shift_right r x else some r) ≡ (not b || is_shift x)
    by_bit true = is_some-int_shift_right r x
    by_bit false = refl

is_some-shifted_masked :
    (o : Option ℤ) (x : ℤ)
    → is_some o ≡ true
    → is_some (shifted_masked o x) ≡ (not (test_bit 4 x) || is_shift x)
is_some-shifted_masked none x h = cc
is_some-shifted_masked (some r) x h = kept (shifted r x) ∙ is_some-shifted r x
  where
    kept :
        (o : Option ℤ) → is_some (elim o [ none ↦ none | some r ↦ some (masked r x) ]) ≡ is_some o
    kept none = refl
    kept (some r) = refl

-- For every argument, `f` has a defined result exactly if bit 4 of it is clear or it lies from 0
-- to 31: the shift by the argument is undefined for all others, and the division never is where
-- the shift is not.
pub f_defined : (x : ℤ) → is_some (f x) ≡ (not (test_bit 4 x) || is_shift x)
unfolding f
f_defined x = elim (divided-cases (summed x) x) [
  | inl ok ↦ is_some-shifted_masked (divided (summed x) x) x ok
  | inr minus_one ↦ rw minus_one (by_division (divided (summed (negsuc 0)) (negsuc 0)))
]
  where
    by_division : (o : Option ℤ) → is_some (shifted_masked o (negsuc 0)) ≡ false
    by_division none = refl
    by_division (some r) = unfold shifted in refl

-- The last digits of the indices whose entry of the table may be shifted by, or is not.
abbrev pub is_good_index : ℤ → Bool
is_good_index (pos n) =
    let digit = n % 10 in digit == 1 || (digit == 3 || (digit == 5 || (digit == 7 || digit == 8)))
is_good_index (negsuc n) = false

abbrev same : Bool → Bool → Bool
same true b = b
same false b = not b

same_lem : (a b : Bool) → same a b ≡ true → a ≡ b
same_lem true true h = refl
same_lem true false h = cc
same_lem false true h = cc
same_lem false false h = refl

abbrev all_below : ℕ → (ℕ → Bool) → Bool
all_below zero p = true
all_below (suc n) p = p n && all_below n p

all_below_lem : (n : ℕ) (p : ℕ → Bool) (i : ℕ) → all_below n p ≡ true → i < n → p i ≡ true
all_below_lem zero p i h lt = absurd (omega arith)
all_below_lem (suc n) p i h lt = ground (arith, all_below_lem n p i)

-- `f(init_vector[i])`
abbrev pub f_at : Option ℕ → Option ℤ
f_at none = none
f_at (some v) = f (pos v)

table :
    all_below 20 (λ i. same (is_some (f_at (get_elem? init_vector i))) (is_good_index (pos i)))
    ≡ true
unfolding f summed divided shifted masked
table = refl

is_some-store_y : (o : Option ℤ) (s : Scenario) → is_some (store_y o s) ≡ is_some o
is_some-store_y none s = refl
is_some-store_y (some v) s = refl

first_entry : f_at (get_elem? init_vector 0) ≡ none
unfolding f summed divided shifted masked
first_entry = refl

pub is_some-init_value : (x : ℤ) → is_some (f_at (init_value x)) ≡ is_good_index x
is_some-init_value (pos n) =
    same_lem (is_some (f_at (get_elem? init_vector (n % 20)))) (is_good_index (pos (n % 20))) (
      all_below_lem 20
        (λ i. same (is_some (f_at (get_elem? init_vector i))) (is_good_index (pos i))) (n % 20)
        table (omega arith))
    ∙ ap (λ (d : ℕ). d == 1 || (d == 3 || (d == 5 || (d == 7 || d == 8)))) last_digit
  where
    last_digit : n % 20 % 10 ≡ n % 10
    last_digit = omega arith
is_some-init_value (negsuc n) = elim (Bool-cases (suc n % 20 == 0)) [
  | inl whole ↦ rw whole (ap is_some first_entry)
  | inr part ↦ rw part refl
]

-- For every state, `task_100ms_nexus` has a defined result exactly if x is not negative and its
-- last digit is 1, 3, 5, 7 or 8: a negative x indexes in front of the table or at its first entry,
-- and half of the entries are numbers by which an `int` may not be shifted.
pub task_100ms_nexus_defined :
    (s : Scenario) → is_some (task_100ms_nexus s) ≡ is_good_index s.vars.x
unfolding task_100ms_nexus
task_100ms_nexus_defined s =
    is_some-store_y (index (init_value s.vars.x)) (record s { signal = is_third s.vars.z })
    ∙ ap is_some (index_lem (init_value s.vars.x))
    ∙ is_some-init_value s.vars.x
  where
    index : Option ℕ → Option ℤ
    index o = elim o [ none ↦ none | some v ↦ f (pos v) ]

    index_lem : (o : Option ℕ) → index o ≡ f_at o
    index_lem none = refl
    index_lem (some v) = refl
