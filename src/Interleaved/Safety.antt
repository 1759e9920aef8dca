-- ===== src/Interleaved/Safety.antt =====
-- What holds of the firmware with traps at any access.
use trace_fs.Base.{◌≡◌, ◌≢◌, refl, sym, ◌∙◌, ap, List, [], some}
use trace_fs.Scheduler.{Scheduler, tasks}
use trace_fs.Scheduler.Slots.{SlotsOk}
use trace_fs.Scheduler.Run.{at_while, fault, Event, run, enter_run}
use trace_fs.Scheduler.Safety.{run-no_fault}
use trace_fs.Tasks.{Platform}
use trace_fs.System.{Happening}
use trace_fs.Interleaved.{Interleaved, run_interleaved, all_calls}
use trace_fs.Interleaved.Effect.{effects-queue}
use trace_fs.Interleaved.Simulation.{run_interleaved-Mirrors}

module _ (platform : Platform) where
  -- From the entry of the main loop with a well-formed queue, for any steps of the main program and
  -- any traps between them and between the accesses of the tasks' functions, with any arrivals at
  -- the peripherals: where every step has a defined result, the calls of the tasks are those of the
  -- machine of the main loop under some schedule, in which a task's function is one step; nothing
  -- has been read through a null pointer, and the queue is that machine's and well-formed.
  pub run_interleaved_sound :
      (hs : List (Happening platform)) (s s' : Interleaved platform)
      → s.system.phase ≡ at_while
      → s.left ≡ []
      → SlotsOk tasks s.system.world.scheduler.queue
      → run_interleaved platform hs s ≡ some s'
      → (es : List Event) × (let m = run es (enter_run s.system.world.scheduler) in
          (m.calls ≡ all_calls platform hs s)
          × (s'.system.phase ≡ m.phase)
          × (s'.system.world.scheduler.queue ≡ m.scheduler.queue)
          × (s'.system.phase ≢ fault)
          × SlotsOk tasks s'.system.world.scheduler.queue)
  run_interleaved_sound hs s s' start none_left ok h =
      let r =
        run_interleaved-Mirrors platform hs s s' (enter_run s.system.world.scheduler)
          (record { scheduler = rw none_left refl; phase = sym start }) h in
      let a = r.agrees in
      let safe = run-no_fault r.schedule s.system.world.scheduler ok in
      let same =
        ap (λ (t : Scheduler). t.queue) a.scheduler
        ∙ effects-queue s'.left s'.system.world.scheduler in
      (r.schedule, (r.calls, sym a.phase, sym same, rw (← a.phase) safe.0, rw (← same) safe.1))
