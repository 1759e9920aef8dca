-- ===== src/Interleaved/Start.antt =====
-- `main` of firmware/emsa5/fw.c from the reset, with traps between the accesses of the
-- initialisations, of the main loop and of the tasks' functions.
use trace_fs.Base.{length, ◌^◌, ◌<◌, ◌≡◌, ◌≢◌, refl, List, [], ◌++◌, some}
use trace_fs.Ctrace.Protocol.{idle, receive}
use trace_fs.Scheduler.{tasks, num_tasks}
use trace_fs.Scheduler.Slots.{SlotsOk}
use trace_fs.Scheduler.Run.{fault}
use trace_fs.Trap.Interruptible.{Arrival}
use trace_fs.Boot.Interrupted.{boot_interrupted-SlotsOk}
use trace_fs.Tasks.{Platform}
use trace_fs.System.{Happening}
use trace_fs.System.Start.{reset_state, start}
use trace_fs.System.Told.{told, pending}
use trace_fs.Interleaved.{Interleaved, run_interleaved, all_calls}
use trace_fs.Interleaved.Goes.{owed}
use trace_fs.Interleaved.Safety.{run_interleaved_sound}
use trace_fs.Interleaved.Trace.{run_interleaved-trace}

module _ (platform : Platform) where
  open platform use {bus}

  abbrev pub enter_main_loop :
      List (List (Arrival bus)) → Interleaved platform → Interleaved platform
  enter_main_loop due s = record s { system = start platform due s.system; left = [] }

  -- From the reset, whatever the four slots of the queue hold, and with no CSR write made, for any traps
  -- while the firmware starts, and for any steps of the main program with any traps and arrivals
  -- between them behind it, also inside the tasks' functions, where every step has a defined result:
  -- the firmware has not read through a null pointer, its slots are well-formed, and what a receiver
  -- of the trace has read, with what the running function has still to send, is the id and the
  -- messages of each task called so far, in order, and the id of the one about to be called.
  pub from_reset_sound :
      (due : List (List (Arrival bus))) (hs : List (Happening platform))
      (s s' : Interleaved platform)
      → platform.self < 2 ^ 32
      → length s.system.world.scheduler.queue ≡ num_tasks
      → s.system.world.writes ≡ []
      → run_interleaved platform hs (enter_main_loop due s) ≡ some s'
      → (s'.system.phase ≢ fault)
        × SlotsOk tasks s'.system.world.scheduler.queue
        × (receive idle s'.system.world.writes ++ owed platform s'.left s'.system.world.counter
            ≡ told platform s.system.world.counter (all_calls platform hs (enter_main_loop due s))
              ++ pending platform s'.system)
  unfolding start
  from_reset_sound due hs s s' small sized clear e =
      let slots = boot_interrupted-SlotsOk bus (reset_state platform due s.system) sized in
      let s0 = enter_main_loop due s in
      let (es, found) = run_interleaved_sound platform hs s0 s' refl refl slots e in
      (found.3, found.4, run_interleaved-trace platform hs s0 s' small refl refl slots clear e)
