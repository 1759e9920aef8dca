-- ===== src/System/Progress.antt =====
-- The whole firmware calls the tasks that it has released.
use trace_fs.Base.{ℕ, ◌≤◌, ◌≡◌, refl, sym, ◌∙◌, List, ◌∷◌, ◌++◌, some, get_elem?}
use trace_fs.Scheduler.{Task, tasks}
use trace_fs.Scheduler.Slots.{SlotsOk}
use trace_fs.Scheduler.Safety.{PhaseOk}
use trace_fs.Scheduler.Called.{Ahead, distance, run-Called}
use trace_fs.Tasks.{Platform}
use trace_fs.System.{System, Happening, run_system}
use trace_fs.System.Told.{called, view, main_steps_of}
use trace_fs.System.Simulation.{run_system-Mirrors}

module _ (platform : Platform) where
  -- From any state with a well-formed queue and place in which slot i holds t and the main program is
  -- before the call from slot i in its round, or is at the test of `while` with the scheduler
  -- enabled: any run of the firmware that has a defined result and has as many steps of the main
  -- program as the distance to that call, with any traps between them, calls t.
  pub run_system-Called :
      (hs : List (Happening platform)) (s s' : System platform) (i : ℕ) (t : Task)
      → SlotsOk tasks s.world.scheduler.queue
      → PhaseOk s.phase s.world.scheduler
      → get_elem? s.world.scheduler.queue i ≡ some (some t)
      → Ahead i s.phase s.world.scheduler.enabled
      → distance i s.phase ≤ main_steps_of platform hs
      → run_system platform hs s ≡ some s'
      → (before : List Task) × (after : List Task) × (called platform hs s ≡ before ++ (t ∷ after))
  run_system-Called hs s s' i t ok place full a far h =
      let r =
        run_system-Mirrors platform hs s s' (view platform s)
          (record { scheduler = refl; phase = refl }) h in
      let (before, after, e) =
        run-Called r.schedule (view platform s) i t (record { slots = ok; place = place }) full a
          (rw r.steps far) in
      (before, after, sym r.calls ∙ e)
