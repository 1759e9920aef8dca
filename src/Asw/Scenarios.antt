-- ===== src/Asw/Scenarios.antt =====
-- firmware/emsa5/asw/scenarios_a3/scenarios_a3.c: the function `f` and the routines that the tasks
-- call. `none` is what C leaves undefined: a division that has no `int` result, a shift by a
-- negative number or by 32 and more, an index in front of an array.
pub mod Defined
use trace_fs.Base.{
  ℕ, zero, suc, ◌+◌, ◌-◌, ◌*◌, ◌/◌, ◌%◌, ◌^◌, bit_and, bit_or, bit_xor, ◌<<<◌, List, [], ◌∷◌,
  Option, none, some, Bool, true, false, not, get_elem?, ltb, leb, ◌==◌, if◌then◌else◌,
}
use trace_fs.Base.Int.{
  ℤ, pos, negsuc, neg_part, sub_ℕ, ◌+ℤ◌, ◌-ℤ◌, ◌*ℤ◌, int32, pattern_of, signed_of, shift_right_ℤ,
}
use trace_fs.Asw.Minmax.{Vars}
use trace_fs.Asw.Contexts.{Contexts, bs, math}

-- `x & (0x1 << k)`, as a condition.
abbrev pub test_bit : ℕ → ℤ → Bool
test_bit k x = not (bit_and (pattern_of 32 x) (1 <<< k) == 0)

-- `/` rounds towards zero.
abbrev pub int_quotient : ℤ → ℤ → ℤ
int_quotient (pos a) (pos b) = pos (a / b)
int_quotient (pos a) (negsuc b) = sub_ℕ 0 (a / suc b)
int_quotient (negsuc a) (pos b) = sub_ℕ 0 (suc a / b)
int_quotient (negsuc a) (negsuc b) = pos (suc a / suc b)

-- Undefined by 0, and by -1 on the least `int`.
abbrev pub int_div : ℤ → ℤ → Option ℤ
int_div r (pos zero) = none
int_div r (pos (suc n)) = some (int_quotient r (pos (suc n)))
int_div r (negsuc zero) =
    if leb (2 ^ 31) (neg_part r) then none else some (int_quotient r (negsuc 0))
int_div r (negsuc (suc n)) = some (int_quotient r (negsuc (suc n)))

abbrev pub int_shift_right : ℤ → ℤ → Option ℤ
int_shift_right r (pos k) = if ltb k 32 then some (shift_right_ℤ r k) else none
int_shift_right r (negsuc k) = none

-- `&`, `^` and `|` work on the patterns.
abbrev pub on_patterns : (ℕ → ℕ → ℕ) → ℤ → ℤ → ℤ
on_patterns op r x = signed_of 32 (op (pattern_of 32 r) (pattern_of 32 x))

-- The three assignments before the division, the one by `/=`, the one by `>>=`, and the last three.
unfoldable pub summed : ℤ → ℤ
summed x =
    let r = pos 255 in
    let r = if test_bit 0 x then int32 (r +ℤ x) else r in
    let r = if test_bit 1 x then int32 (r *ℤ x) else r in if test_bit 2 x then int32 (r -ℤ x) else r

unfoldable pub divided : ℤ → ℤ → Option ℤ
divided r x = if test_bit 3 x then int_div r x else some r

unfoldable pub shifted : ℤ → ℤ → Option ℤ
shifted r x = if test_bit 4 x then int_shift_right r x else some r

unfoldable pub masked : ℤ → ℤ → ℤ
masked r x =
    let r = if test_bit 5 x then on_patterns bit_and r x else r in
    let r = if test_bit 6 x then on_patterns bit_xor r x else r in
    if test_bit 7 x then on_patterns bit_or r x else r

abbrev pub shifted_masked : Option ℤ → ℤ → Option ℤ
shifted_masked none x = none
shifted_masked (some r) x = elim (shifted r x) [ none ↦ none | some r ↦ some (masked r x) ]

unfoldable pub f : ℤ → Option ℤ
unfolding summed divided shifted masked
f x = shifted_masked (divided (summed x) x) x

abbrev pub init_vector : List ℕ
init_vector =
    90 ∷ 47 ∷ 85 ∷ 66 ∷ 49 ∷ 7 ∷ 93 ∷ 35 ∷ 78 ∷ 63 ∷ 90 ∷ 47 ∷ 85 ∷ 66 ∷ 49 ∷ 7 ∷ 93 ∷ 35 ∷ 78 ∷ 63
    ∷ []

-- The globals.
pub record Scenario : Type 0 where
  pub vars : Vars
  pub signal : ℤ
  pub bs_math_index : ℕ
  pub contexts : Contexts

-- `signal != 0`
abbrev pub is_set : ℤ → Bool
is_set (pos zero) = false
is_set (pos (suc n)) = true
is_set (negsuc n) = true

unfoldable pub task_5ms_bs_math : Scenario → Scenario
task_5ms_bs_math s =
    let s = record s { bs_math_index = if is_set s.signal then 10 else 20 } in
    let s = if s.bs_math_index == 10 then record s { contexts = bs s.contexts } else s in
    if s.bs_math_index == 20 then record s { contexts = math s.contexts } else s

-- `z % 3 == 0`, as an `int`: the sign does not matter to the test.
abbrev pub is_third : ℤ → ℤ
is_third (pos n) = if n % 3 == 0 then pos 1 else pos 0
is_third (negsuc n) = if suc n % 3 == 0 then pos 1 else pos 0

-- `init_vector[x % 20]`: the remainder has the sign of x.
abbrev pub init_value : ℤ → Option ℕ
init_value (pos n) = get_elem? init_vector (n % 20)
init_value (negsuc n) = if suc n % 20 == 0 then get_elem? init_vector 0 else none

abbrev pub store_y : Option ℤ → Scenario → Option Scenario
store_y none s = none
store_y (some v) s =
    some (record s { vars = record s.vars { y = v; z = int32 (s.vars.z +ℤ pos 1) } })

unfoldable pub task_100ms_nexus : Scenario → Option Scenario
unfolding f
task_100ms_nexus s =
    let s = record s { signal = is_third s.vars.z } in
    store_y (elim (init_value s.vars.x) [ none ↦ none | some v ↦ f (pos v) ]) s
