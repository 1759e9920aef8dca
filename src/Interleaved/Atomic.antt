-- ===== src/Interleaved/Atomic.antt =====
-- The firmware of `System`, in which a task's function is one step, as the runs of the firmware here
-- that have no trap inside a task's function.
use trace_fs.Base.{ℕ, ◌≡◌, refl, ap, ◌∙◌, List, [], ◌∷◌, Option, none, some}
use trace_fs.Scheduler.{Task}
use trace_fs.Scheduler.Run.{
  Phase, at_while, at_slot, at_trace, at_entry, in_task, stopped, fault, slot,
}
use trace_fs.Tasks.{Platform, World}
use trace_fs.Tasks.Accesses.{Access, Frame, exec, exec_all, accesses}
use trace_fs.Tasks.InOrder.{world_of, exec_all-call}
use trace_fs.System.{System, Happening, main_goes, enter_at, main_at, happen}
use trace_fs.Interleaved.{
  Interleaved, call_slot, in_loop, resume, outside, goes_on, interleave, run_interleaved,
}

module _ (platform : Platform) where
  -- A step of the main program for each access.
  abbrev pub steps_for : List Access → List (Happening platform)
  steps_for [] = []
  steps_for (a ∷ left) = main_goes ∷ steps_for left

  abbrev pub accesses_in : Option Task → List Access
  accesses_in none = []
  accesses_in (some t) = accesses t.entry

  -- The accesses of the function that the next step calls.
  abbrev pub accesses_at : Phase → System platform → List Access
  accesses_at (at_entry i) s = accesses_in (slot s.world.scheduler.queue i)
  accesses_at _ s = []

  abbrev pub system_of : Option (Interleaved platform) → Option (System platform)
  system_of none = none
  system_of (some s) = some s.system

  resume-resume :
      (left : List Access) (f : Frame platform) (o : Option (Frame platform))
      (s : Interleaved platform)
      → resume platform [] o
          (record s { system = record s.system { world = f.world }; local = f.local; left = left })
        ≡ resume platform [] o s
  resume-resume left f none s = refl
  resume-resume left f (some r) s = refl

  run-steps_for :
      (left : List Access) (s : Interleaved platform)
      → s.left ≡ left
      → run_interleaved platform (steps_for left) s
        ≡ resume platform []
            (exec_all platform left (record { local = s.local; world = s.system.world }))
            s
  unfolding run_interleaved exec_all
  run-steps_for [] s e = ap (λ (l : List Access). some (record s { left = l })) e
  run-steps_for (a ∷ left) s e =
      ap
        (λ (l : List Access). elim (goes_on platform l s) [
          | none ↦ none
          | some s' ↦ run_interleaved platform (steps_for left) s'
        ])
        e
      ∙ by_result (λ s1 e1. run-steps_for left s1 e1)
          (exec platform a (record { local = s.local; world = s.system.world }))
    where
      by_result :
          ((s1 : Interleaved platform)
            → s1.left ≡ left
            → run_interleaved platform (steps_for left) s1
              ≡ resume platform []
                  (exec_all platform left (record { local = s1.local; world = s1.system.world }))
                  s1)
          → (r : Option (Frame platform))
          → elim (resume platform left r s) [
            | none ↦ none
            | some s' ↦ run_interleaved platform (steps_for left) s'
          ]
            ≡ resume platform [] (elim r [ none ↦ none | some f ↦ exec_all platform left f ]) s
      by_result further none = refl
      by_result further (some f) = further _ refl ∙ resume-resume left f _ s

  system_of-resume :
      (i : ℕ) (t : Task) (o : Option (Frame platform)) (s : Interleaved platform)
      → system_of (resume platform [] o (call_slot platform i (some t) s))
        ≡ elim (world_of platform o) [
          | none ↦ none
          | some w ↦ some (record s.system { phase = in_task i t; world = w })
        ]
  system_of-resume i t none s = refl
  system_of-resume i t (some f) s = refl

  system_of-in_loop :
      (o : Option (System platform)) (s : Interleaved platform)
      → system_of
          (elim (in_loop platform o s) [ none ↦ none | some s' ↦ run_interleaved platform [] s' ])
        ≡ o
  unfolding run_interleaved
  system_of-in_loop none s = refl
  system_of-in_loop (some r) s = refl

  enter_at-run :
      (i : ℕ) (o : Option Task) (s : Interleaved platform)
      → s.left ≡ []
      → system_of (run_interleaved platform (steps_for (accesses_in o)) (call_slot platform i o s))
        ≡ enter_at platform i o s.system
  unfolding run_interleaved
  enter_at-run i none s e = refl
  enter_at-run i (some t) s e =
      ap system_of (run-steps_for (accesses t.entry) (call_slot platform i (some t) s) refl)
      ∙ system_of-resume i t _ s
      ∙ ap
          (λ (o : Option (World platform)). elim o [
            | none ↦ none
            | some w ↦ some (record s.system { phase = in_task i t; world = w })
          ])
          (exec_all-call platform t.entry (record { local = s.local; world = s.system.world }))

  main_at-run :
      (p : Phase) (s : Interleaved platform)
      → s.left ≡ []
      → system_of (elim (outside platform p s) [
        | none ↦ none
        | some s' ↦ run_interleaved platform (steps_for (accesses_at p s.system)) s'
      ])
        ≡ main_at platform p s.system
  main_at-run at_while s e = system_of-in_loop (main_at platform at_while s.system) s
  main_at-run (at_slot i) s e = system_of-in_loop (main_at platform (at_slot i) s.system) s
  main_at-run (at_trace i) s e = system_of-in_loop (main_at platform (at_trace i) s.system) s
  main_at-run (at_entry i) s e = enter_at-run i (slot s.system.world.scheduler.queue i) s e
  main_at-run (in_task i t) s e = system_of-in_loop (main_at platform (in_task i t) s.system) s
  main_at-run stopped s e = system_of-in_loop (main_at platform stopped s.system) s
  main_at-run fault s e = system_of-in_loop (main_at platform fault s.system) s

  -- For every state outside the tasks' functions: a step of the firmware in which a task's function
  -- is one step has the result of a step here and, where it calls a task, one more for each access of
  -- the function, with no trap between them; and no result where these have none.
  pub run_interleaved-happen :
      (s : Interleaved platform)
      → s.left ≡ []
      → system_of
          (run_interleaved platform (main_goes ∷ steps_for (accesses_at s.system.phase s.system)) s)
        ≡ happen platform main_goes s.system
  unfolding run_interleaved interleave happen
  run_interleaved-happen s e =
      ap
        (λ (l : List Access). system_of (elim (goes_on platform l s) [
          | none ↦ none
          | some s' ↦ run_interleaved platform (steps_for (accesses_at s.system.phase s.system)) s'
        ]))
        e
      ∙ main_at-run s.system.phase s e
