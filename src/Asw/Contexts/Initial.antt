-- ===== src/Asw/Contexts/Initial.antt =====
-- The initial contents of the arrays, with the constants wrapped to `short`.
use trace_fs.Base.{ℕ, List, [], ◌∷◌, map}
use trace_fs.Base.Int.{ℤ, pos, int16}
use trace_fs.Asw.Contexts.{Contexts}

abbrev shorts : List ℕ → List ℤ
shorts = map (λ n. int16 (pos n))

abbrev pub initial_a : List ℤ
initial_a = shorts (
    0x0000 ∷ 0x07ff ∷ 0x0c00 ∷ 0x0800 ∷ 0x0200 ∷ 0xf800 ∷ 0xf300 ∷ 0x0400 ∷ 0x0000 ∷ 0x07ff ∷ 0x0c00
    ∷ 0x0800 ∷ 0x0200 ∷ 0xf800 ∷ 0xf300 ∷ 0x0400 ∷ 0x0000 ∷ 0x07ff ∷ 0x0c00 ∷ 0x0800 ∷ 0x0200
    ∷ 0xf800 ∷ 0xf300 ∷ 0x0400 ∷ 0x0000 ∷ 0x07ff ∷ 0x0c00 ∷ 0x0800 ∷ 0x0200 ∷ 0xf800 ∷ 0xf300
    ∷ 0x0400 ∷ 0x0000 ∷ 0x07ff ∷ 0x0c00 ∷ 0x0800 ∷ 0x0200 ∷ 0xf800 ∷ 0xf300 ∷ 0x0400 ∷ 0x0000
    ∷ 0x07ff ∷ 0x0c00 ∷ 0x0800 ∷ 0x0200 ∷ 0xf800 ∷ 0xf300 ∷ 0x0400 ∷ 0x0000 ∷ 0x07ff ∷ 0x0c00
    ∷ 0x0800 ∷ 0x0200 ∷ 0xf800 ∷ 0xf300 ∷ 0x0400 ∷ 0x0000 ∷ 0x07ff ∷ 0x0c00 ∷ 0x0800 ∷ 0x0200
    ∷ 0xf800 ∷ 0xf300 ∷ 0x0400 ∷ 0x0000 ∷ 0x07ff ∷ 0x0c00 ∷ 0x0800 ∷ 0x0200 ∷ 0xf800 ∷ 0xf300
    ∷ 0x0400 ∷ 0x0000 ∷ 0x07ff ∷ 0x0c00 ∷ 0x0800 ∷ 0x0200 ∷ 0xf800 ∷ 0xf300 ∷ 0x0400 ∷ 0x0000
    ∷ 0x07ff ∷ 0x0c00 ∷ 0x0800 ∷ 0x0200 ∷ 0xf800 ∷ 0xf300 ∷ 0x0400 ∷ 0x0000 ∷ 0x07ff ∷ 0x0c00
    ∷ 0x0800 ∷ 0x0200 ∷ 0xf800 ∷ 0xf300 ∷ 0x0400 ∷ 0x0000 ∷ 0x07ff ∷ 0x0c00 ∷ 0x0800 ∷ [])

abbrev pub initial_b : List ℤ
initial_b = shorts (
    0x0c60 ∷ 0x0c40 ∷ 0x0c20 ∷ 0x0c00 ∷ 0xf600 ∷ 0xf400 ∷ 0xf200 ∷ 0xf000 ∷ 0x0c60 ∷ 0x0c40 ∷ 0x0c20
    ∷ 0x0c00 ∷ 0xf600 ∷ 0xf400 ∷ 0xf200 ∷ 0xf000 ∷ 0x0c60 ∷ 0x0c40 ∷ 0x0c20 ∷ 0x0c00 ∷ 0xf600
    ∷ 0xf400 ∷ 0xf200 ∷ 0xf000 ∷ 0x0c60 ∷ 0x0c40 ∷ 0x0c20 ∷ 0x0c00 ∷ 0xf600 ∷ 0xf400 ∷ 0xf200
    ∷ 0xf000 ∷ 0x0c60 ∷ 0x0c40 ∷ 0x0c20 ∷ 0x0c00 ∷ 0xf600 ∷ 0xf400 ∷ 0xf200 ∷ 0xf000 ∷ 0x0c60
    ∷ 0x0c40 ∷ 0x0c20 ∷ 0x0c00 ∷ 0xf600 ∷ 0xf400 ∷ 0xf200 ∷ 0xf000 ∷ 0x0c60 ∷ 0x0c40 ∷ 0x0c20
    ∷ 0x0c00 ∷ 0xf600 ∷ 0xf400 ∷ 0xf200 ∷ 0xf000 ∷ 0x0c60 ∷ 0x0c40 ∷ 0x0c20 ∷ 0x0c00 ∷ 0xf600
    ∷ 0xf400 ∷ 0xf200 ∷ 0xf000 ∷ 0x0c60 ∷ 0x0c40 ∷ 0x0c20 ∷ 0x0c00 ∷ 0xf600 ∷ 0xf400 ∷ 0xf200
    ∷ 0xf000 ∷ 0x0c60 ∷ 0x0c40 ∷ 0x0c20 ∷ 0x0c00 ∷ 0xf600 ∷ 0xf400 ∷ 0xf200 ∷ 0xf000 ∷ 0x0c60
    ∷ 0x0c40 ∷ 0x0c20 ∷ 0x0c00 ∷ 0xf600 ∷ 0xf400 ∷ 0xf200 ∷ 0xf000 ∷ 0x0c60 ∷ 0x0c40 ∷ 0x0c20
    ∷ 0x0c00 ∷ 0xf600 ∷ 0xf400 ∷ 0xf200 ∷ 0xf000 ∷ 0x0c60 ∷ 0x0c40 ∷ 0x0c20 ∷ 0x0c00 ∷ [])

-- `output` has no initialiser, and is 0.
abbrev pub initial_contexts : Contexts
initial_contexts = record {
  a = initial_a;
  b = initial_b;
  c = pos 0x3;
  output = pos 0;
  arr = pos 0 ∷ pos 1 ∷ pos 2 ∷ pos 3 ∷ pos 4 ∷ pos 5 ∷ pos 6 ∷ pos 7 ∷ pos 8 ∷ pos 9 ∷ pos 10 ∷ [];
}
