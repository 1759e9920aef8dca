-- ===== src/Interleaved/Liveness.antt =====
-- What the firmware with traps at any access comes to: the tasks that it calls, and its end.
use trace_fs.Base.{
  ℕ, ◌+◌, ◌*◌, ◌≤◌, ◌≡◌, refl, sym, ap, ◌∙◌, arith, List, [], ◌∷◌, ◌++◌, some, get_elem?, length,
}
use trace_fs.Scheduler.{Task, tasks}
use trace_fs.Scheduler.Slots.{SlotsOk}
use trace_fs.Scheduler.Run.{stopped}
use trace_fs.Scheduler.Safety.{PhaseOk}
use trace_fs.Scheduler.Called.{Ahead, distance, run-Called}
use trace_fs.Scheduler.Stop.{rank, run-stops}
use trace_fs.Tasks.{Platform}
use trace_fs.System.{Happening}
use trace_fs.System.Told.{view, main_steps_of}
use trace_fs.Interleaved.{Interleaved, run_interleaved, all_calls}
use trace_fs.Interleaved.Effect.{effects}
use trace_fs.Interleaved.Simulation.{run_interleaved-Mirrors}
use trace_fs.Interleaved.Pace.{loop_steps-enough}
use trace_fs.Interleaved.Trace.{ahead_of, IsSafe-ahead}

module _ (platform : Platform) where
  -- From any state with a well-formed queue and place in which slot i holds t and the main loop is
  -- before the call from slot i in its round, or is at the test of `while` with the scheduler
  -- enabled: any run with a defined result, with traps at any place, that has ten times as many
  -- steps of the main program as the distance to that call in steps of the main loop, calls t.
  pub run_interleaved-Called :
      (hs : List (Happening platform)) (s s' : Interleaved platform) (i : ℕ) (t : Task)
      → SlotsOk tasks s.system.world.scheduler.queue
      → PhaseOk s.system.phase s.system.world.scheduler
      → s.left ≡ []
      → get_elem? s.system.world.scheduler.queue i ≡ some (some t)
      → Ahead i s.system.phase s.system.world.scheduler.enabled
      → 10 * distance i s.system.phase ≤ main_steps_of platform hs
      → run_interleaved platform hs s ≡ some s'
      → (before : List Task) × (after : List Task) × (all_calls platform hs s
          ≡ before ++ (t ∷ after))
  run_interleaved-Called hs s s' i t ok place none_left full a far h =
      let m = view platform s.system in
      let r =
        run_interleaved-Mirrors platform hs s s' m
          (record { scheduler = rw none_left refl; phase = refl }) h in
      let enough = loop_steps-enough platform hs s s' h in
      let (before, after, e) =
        run-Called r.schedule m i t (record { slots = ok; place = place }) full a
          (rw r.steps (omega (arith, far, enough, ap length none_left))) in
      (before, after, sym r.calls ∙ e)

  -- From any state with a well-formed queue and place, also inside a task's function, in which the
  -- scheduler is disabled or the running function is still to disable it: any run with a defined
  -- result, with traps at any place, has left the main loop when the main program has made as many
  -- steps as the function has accesses left, and ten times as many as the place is before the end.
  pub run_interleaved-stops :
      (hs : List (Happening platform)) (s s' : Interleaved platform)
      → SlotsOk tasks s.system.world.scheduler.queue
      → PhaseOk s.system.phase s.system.world.scheduler
      → (effects s.left s.system.world.scheduler).enabled ≡ 0
      → length s.left + 10 * rank s.system.phase ≤ main_steps_of platform hs
      → run_interleaved platform hs s ≡ some s'
      → s'.system.phase ≡ stopped
  run_interleaved-stops hs s s' ok place off far h =
      let m = ahead_of platform s in
      let r =
        run_interleaved-Mirrors platform hs s s' m (record { scheduler = refl; phase = refl }) h in
      let enough = loop_steps-enough platform hs s s' h in
      sym r.agrees.phase
      ∙ run-stops r.schedule m (IsSafe-ahead platform s (record { slots = ok; place = place })) off
          (rw r.steps (omega (arith, far, enough)))
