-- ===== src/Tests/Scenes.antt =====
-- Inputs for the demonstrator's vectors, its sort, and the function `f`.
use mathlib.Core.List.{Perm}
use trace_fs.Base.{is_some, arith, ◌≡◌, refl}
use trace_fs.Base.Int.{pos, ◌+ℤ◌, ◌*ℤ◌, ◌≤ℤ◌, int16, shift_right_ℤ}
use trace_fs.Asw.Contexts.{Contexts, at, bs, math}
use trace_fs.Asw.Contexts.Initial.{initial_contexts}
use trace_fs.Asw.Contexts.Sorted.{bs-sorts}
use trace_fs.Asw.Contexts.Accumulate.{inner_product}
use trace_fs.Asw.Contexts.Elements.{math_exact}
use trace_fs.Asw.Scenarios.{Scenario, task_100ms_nexus}
use trace_fs.Asw.Scenarios.Defined.{is_good_index, task_100ms_nexus_defined}

-- The scene is the one that the firmware starts with.
abbrev scene : Contexts
scene = initial_contexts

bs-sorts_example :
    let s' = bs scene in
    (at s'.arr 7 ≤ℤ at s'.arr 2)
    × Perm s'.arr scene.arr
    × (at s'.arr 0 ≡ at scene.arr 0)
    × (s' ≡ record scene { arr = s'.arr })
bs-sorts_example = bs-sorts scene 2 7 refl (omega arith) (omega arith) (omega arith)

math_exact_example :
    let s' = math scene in
    (at s'.a 42 ≡ int16 (at scene.a 42 +ℤ shift_right_ℤ (pos 3 *ℤ at scene.b 42) 15))
    × (s'.c ≡ int16 (pos 3 +ℤ inner_product 100 0 scene.b scene.b))
    × (s'.output ≡ int16 (pos 0 +ℤ inner_product 100 0 scene.b s'.a))
    × (s'.b ≡ scene.b)
    × (s'.arr ≡ scene.arr)
math_exact_example =
    math_exact scene 42 refl (omega arith) (omega arith) (omega arith) (omega arith) (omega arith)

-- The state of the first call: x and z are 0.
abbrev first : Scenario
first = record {
  vars = record { x = pos 0; y = pos 0; z = pos 0; result = pos 0 };
  signal = pos 0;
  bs_math_index = 0;
  contexts = scene;
}

task_100ms_nexus_defined_example : is_some (task_100ms_nexus first) ≡ is_good_index (pos 0)
task_100ms_nexus_defined_example = task_100ms_nexus_defined first
