-- ===== src/Asw/Contexts.antt =====
-- firmware/emsa5/asw/scenarios_a3/trace_contexts.c: two passes over vectors of `short`, and a bubble
-- sort. A `short` is an integer that wraps on 16 bits where it is stored; the products are `int`.
pub mod Exchange
pub mod Sorted
pub mod Accumulate
pub mod Elements
pub mod Initial
use trace_fs.Base.{ℕ, zero, suc, ◌+◌, ◌-◌, List, get_or, set, Bool, ltb, if◌then◌else◌}
use trace_fs.Base.Int.{ℤ, pos, ltb_ℤ, ◌+ℤ◌, ◌*ℤ◌, int16, int32, shift_right_ℤ}

-- `xs[i]`
abbrev pub at : List ℤ → ℕ → ℤ
at xs i = get_or xs i (pos 0)

-- The rounds of the two `for` loops over the vectors.
abbrev pub vector_length : ℕ
vector_length = 100

-- `y[i] += ((scaler * x[i]) >> 15)`
abbrev pub scaled : ℤ → ℤ → ℤ → ℤ
scaled scaler y x = int16 (int32 (y +ℤ shift_right_ℤ (int32 (scaler *ℤ x)) 15))

unfoldable pub vec_mpy1_from : ℕ → ℕ → List ℤ → List ℤ → ℤ → List ℤ
vec_mpy1_from zero i y x scaler = y
vec_mpy1_from (suc left) i y x scaler =
    vec_mpy1_from left (i + 1) (set y i (scaled scaler (at y i) (at x i))) x scaler

unfoldable pub vec_mpy1 : List ℤ → List ℤ → ℤ → List ℤ
unfolding vec_mpy1_from
vec_mpy1 y x scaler = vec_mpy1_from vector_length 0 y x scaler

-- `acc += p * q` on a `short`.
abbrev pub accumulate : ℤ → ℤ → ℤ → ℤ
accumulate acc p q = int16 (int32 (acc +ℤ int32 (p *ℤ q)))

-- The loop of `mac`, on the two accumulators (sqr, dotp).
unfoldable pub mac_from : ℕ → ℕ → List ℤ → List ℤ → ℤ → ℤ → ℤ × ℤ
mac_from zero i a b sqr dotp = (sqr, dotp)
mac_from (suc left) i a b sqr dotp =
    mac_from left (i + 1) a b (accumulate sqr (at b i) (at b i)) (accumulate dotp (at b i) (at a i))

-- What `mac` returns, and what it leaves in `*sum`.
unfoldable pub mac : List ℤ → List ℤ → ℤ → ℤ → ℤ × ℤ
unfolding mac_from
mac a b sqr sum = mac_from vector_length 0 a b sqr sum

-- The globals `a`, `b`, `c`, `output[0]` and `arr`.
pub record Contexts : Type 0 where
  pub a : List ℤ
  pub b : List ℤ
  pub c : ℤ
  pub output : ℤ
  pub arr : List ℤ

unfoldable pub math : Contexts → Contexts
unfolding vec_mpy1 mac
math s =
    let a = vec_mpy1 s.a s.b s.c in
    let (c, output) = mac a s.b s.c s.output in record s { a = a; c = c; output = output }

abbrev pub n_el : ℕ
n_el = 10

-- The body of the inner loop of `bs`.
unfoldable pub compare_swap : ℕ → List ℤ → List ℤ
compare_swap j arr =
    let temp = at arr j in
    if ltb_ℤ (at arr j) (at arr (j + 1)) then set (set arr j (at arr (j + 1))) (j + 1) temp else arr

-- The inner loop, with a number of rounds to go.
unfoldable pub bs_inner : ℕ → ℕ → List ℤ → List ℤ
bs_inner zero j arr = arr
bs_inner (suc left) j arr = bs_inner left (j + 1) (compare_swap j arr)

-- The outer loop, from i down to 2; the inner one takes i - 1 rounds.
unfoldable pub bs_outer : ℕ → List ℤ → List ℤ
bs_outer zero arr = arr
bs_outer (suc k) arr =
    let rest = bs_outer k (bs_inner k 1 arr) in if ltb 1 (suc k) then rest else arr

unfoldable pub bs : Contexts → Contexts
unfolding bs_outer bs_inner compare_swap
bs s = record s { arr = bs_outer n_el s.arr }
