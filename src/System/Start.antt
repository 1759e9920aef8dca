-- ===== src/System/Start.antt =====
-- `main` of firmware/emsa5/fw.c from the reset to the main loop: the initialisations, with traps, and
-- then any run of the firmware.
use trace_fs.Base.{length, ◌^◌, ◌<◌, ◌≡◌, ◌≢◌, refl, List, [], ◌++◌, some}
use trace_fs.Ctrace.Protocol.{idle, receive}
use trace_fs.Scheduler.{tasks, num_tasks}
use trace_fs.Scheduler.Slots.{SlotsOk}
use trace_fs.Scheduler.Run.{at_while, fault}
use trace_fs.Trap.Interruptible.{Arrival, Running}
use trace_fs.Boot.Stages.{boot_interrupted}
use trace_fs.Boot.Interrupted.{boot_interrupted-SlotsOk}
use trace_fs.Tasks.{Platform}
use trace_fs.System.{System, Happening, firmware_of, with_firmware, run_system}
use trace_fs.System.Told.{called, told, pending}
use trace_fs.System.Simulation.{run_system_sound}
use trace_fs.System.Trace.{run_system-trace}

module _ (platform : Platform) where
  open platform use {bus}

  abbrev pub reset_state : List (List (Arrival bus)) → System platform → Running bus
  reset_state due s = record { firmware = firmware_of platform s; due = due }

  -- At the test of `while` in `scheduler_run`.
  unfoldable pub start : List (List (Arrival bus)) → System platform → System platform
  start due s =
      record (with_firmware platform (boot_interrupted bus (reset_state due s)).firmware s) {
        phase = at_while;
      }

  -- From the reset, whatever the four slots of the queue hold, and with no CSR write made, for any traps
  -- while the firmware starts, and for any traps, arrivals at the peripherals and steps of the main
  -- program that have a defined result behind it: the firmware has not read through a null pointer,
  -- its slots are well-formed, and a receiver of the trace reads exactly the id of each task called
  -- so far, in order and each followed by what the task sends, and behind them the id of the task
  -- that is announced and about to be called, if there is one.
  pub start_sound :
      (due : List (List (Arrival bus))) (hs : List (Happening platform)) (s s' : System platform)
      → platform.self < 2 ^ 32
      → length s.world.scheduler.queue ≡ num_tasks
      → s.world.writes ≡ []
      → run_system platform hs (start due s) ≡ some s'
      → (s'.phase ≢ fault)
        × SlotsOk tasks s'.world.scheduler.queue
        × (receive idle s'.world.writes
            ≡ told platform s.world.counter (called platform hs (start due s))
              ++ pending platform s')
  unfolding start
  start_sound due hs s s' small sized clear e =
      let slots = boot_interrupted-SlotsOk bus (reset_state due s) sized in
      let (es, found) = run_system_sound platform hs (start due s) s' refl slots e in
      (found.2, found.3, run_system-trace platform hs (start due s) s' small refl slots clear e)
