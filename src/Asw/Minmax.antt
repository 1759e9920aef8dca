-- ===== src/Asw/Minmax.antt =====
-- firmware/emsa5/asw/scenarios_a3/minmax.c, and `ISR2_minmax` of scenarios_a3.c. An `int` is an
-- integer, and what is stored into one wraps on 32 bits, as the firmware's compiler defines it.
use trace_fs.Base.{◌+◌, Bool, leb, if◌then◌else◌}
use trace_fs.Base.Int.{ℤ, pos_part, neg_part, ◌+ℤ◌, ◌-ℤ◌, ◌*ℤ◌, int32}

-- `<=`.
abbrev pub leb_ℤ : ℤ → ℤ → Bool
leb_ℤ a b = leb (pos_part a + neg_part b) (pos_part b + neg_part a)

-- The two variables behind the pointers.
unfoldable pub swap : ℤ × ℤ → ℤ × ℤ
swap (a, b) = let tmp = a in (b, tmp)

unfoldable pub min : ℤ → ℤ → ℤ → ℤ
min a b c = if leb_ℤ a b then (if leb_ℤ a c then a else c) else (if leb_ℤ b c then b else c)

unfoldable pub max : ℤ → ℤ → ℤ → ℤ
unfolding swap
max a b c =
    let (a, b) = if leb_ℤ a b then swap (a, b) else (a, b) in
    let (a, c) = if leb_ℤ a c then swap (a, c) else (a, c) in a

-- The globals `x`, `y`, `z` and `result`.
pub record Vars : Type 0 where
  pub x : ℤ
  pub y : ℤ
  pub z : ℤ
  pub result : ℤ

-- The chain of tests of `ISR2_minmax`.
unfoldable pub minmax_update : Vars → Vars
unfolding swap
minmax_update v =
    let (x', y') = swap (v.x, v.y) in
    if leb_ℤ v.x v.y
    then record v { x = x'; y = y' }
    else if leb_ℤ v.x v.z
    then record v { x = int32 (v.x +ℤ min v.x v.y v.z) }
    else record v { z = int32 (v.z *ℤ max v.z v.y v.x) }

unfoldable pub isr2_minmax : Vars → Vars
isr2_minmax v =
    let v = minmax_update v in
    record v { result = if leb_ℤ v.y v.z then int32 (v.y +ℤ v.z) else int32 (v.y -ℤ v.z) }
