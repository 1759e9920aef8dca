-- ===== src/Tests/Inside.antt =====
-- Runs of the firmware with traps inside the functions of the tasks.
use trace_fs.Base.{true, [], ◌∷◌, ◌++◌, arith, List, none, some, not, ◌≡◌, ◌≢◌, refl, false}
use trace_fs.Base.Int.{ℤ, pos, negsuc, ◌*ℤ◌}
use trace_fs.Ctrace.Protocol.{idle, receive}
use trace_fs.Scheduler.{tasks, task_5ms, scheduler_enable}
use trace_fs.Scheduler.Slots.{SlotsOk}
use trace_fs.Scheduler.Run.{Event, fault, run, enter_run, in_task}
use trace_fs.Hal.Irq.{irq_is_pending_interrupt, irq_acknowledge_interrupt}
use trace_fs.Hal.Led.{led_toggle}
use trace_fs.Hal.Gpio.{gpio_acknowledge_interrupt}
use trace_fs.Hal.Timer.{timer_acknowledge_timer}
use trace_fs.Asw.Minmax.{isr2_minmax, minmax_update, max}
use trace_fs.Asw.Scenarios.{f}
use trace_fs.Boot.Stages.{boot_interrupted}
use trace_fs.Tasks.{call}
use trace_fs.Tasks.Accesses.{exec_all, accesses, read_x, read_z, write_z, Local}
use trace_fs.Tasks.InOrder.{world_of, exec_all-call}
use trace_fs.Trap.{handle_trap}
use trace_fs.System.{System, Happening, main_goes, trapped, trap}
use trace_fs.System.Told.{told, pending}
use trace_fs.System.Start.{start}
use trace_fs.Interleaved.{Interleaved, interleave, run_interleaved, all_calls}
use trace_fs.Interleaved.Safety.{run_interleaved_sound}
use trace_fs.Interleaved.Goes.{owed}
use trace_fs.Interleaved.Trace.{run_interleaved-trace}
use trace_fs.Interleaved.Lost.{Trap, after_traps}
use trace_fs.Interleaved.Defined.{is_bad_step, is_defined, run_interleaved_defined}
use trace_fs.Interleaved.Start.{enter_main_loop, from_reset_sound}
use trace_fs.Tests.Boards.{platform, world, two_raised}
use trace_fs.Tests.Whole.{both_due, both_due-SlotsOk, rings, second_task, third_task}
use trace_fs.Tests.Start.{at_reset, arrivals}

abbrev pub unset : Local
unset = record { flag = false; byte = 0; control = 0; value = pos 0; count = pos 0 }

abbrev pub both : Interleaved platform
both = record {
  system = record both_due {
    world = record both_due.world { device = record two_raised { enabled = 15 } };
  };
  local = unset;
  left = [];
}

-- Two tasks are called, and a trap comes between the read and the write of z in the second.
abbrev tale : List (Happening platform)
tale =
    main_goes
    ∷ main_goes
    ∷ main_goes
    ∷ main_goes
    ∷ main_goes
    ∷ main_goes
    ∷ main_goes
    ∷ main_goes
    ∷ main_goes
    ∷ main_goes
    ∷ main_goes
    ∷ main_goes
    ∷ main_goes
    ∷ main_goes
    ∷ trapped 0x8000_000b 0x100 rings
    ∷ main_goes
    ∷ []

abbrev told_of : Interleaved platform
told_of = elim (run_interleaved platform tale both) [ none ↦ both | some s ↦ s ]

tale_returns : run_interleaved platform tale both ≡ some told_of
unfolding run_interleaved f
tale_returns = refl

run_interleaved_sound_example :
    (es : List Event) × (let m = run es (enter_run both.system.world.scheduler) in
      (m.calls ≡ all_calls platform tale both)
      × (told_of.system.phase ≡ m.phase)
      × (told_of.system.world.scheduler.queue ≡ m.scheduler.queue)
      × (told_of.system.phase ≢ fault)
      × SlotsOk tasks told_of.system.world.scheduler.queue)
run_interleaved_sound_example =
    run_interleaved_sound platform tale both told_of refl refl both_due-SlotsOk tale_returns

tale_calls : all_calls platform tale both ≡ second_task ∷ third_task ∷ []
unfolding all_calls interleave f
tale_calls = refl

-- The trace test is still to be sent.
run_interleaved-trace_example :
    receive idle told_of.system.world.writes
      ++ owed platform told_of.left told_of.system.world.counter
    ≡ told platform 10 (all_calls platform tale both) ++ pending platform told_of.system
run_interleaved-trace_example =
    run_interleaved-trace platform tale both told_of (omega arith) refl refl both_due-SlotsOk refl
      tale_returns

abbrev with_x : ℤ → System platform → System platform
with_x x s = record s {
  world = record s.world {
    scenario = record s.world.scenario { vars = record s.world.scenario.vars { x = x } };
  };
}

-- z is read, and two traps come before it is written.
abbrev counting : Interleaved platform
counting = record both {
  system = with_x (pos 9) (record both.system { phase = in_task 2 third_task });
  left = read_z ∷ write_z ∷ [];
}

abbrev two_traps : List (Trap platform)
two_traps = (0x8000_000b, 0x100, rings) ∷ (0x8000_000b, 0x104, rings) ∷ []

-- The traps make 27 of z.
two_traps_count : (after_traps platform two_traps counting.system).world.scenario.vars.z ≡ pos 27
unfolding trap handle_trap irq_is_pending_interrupt led_toggle irq_acknowledge_interrupt
    timer_acknowledge_timer gpio_acknowledge_interrupt isr2_minmax minmax_update ◌*ℤ◌ max
two_traps_count = refl

run_interleaved_defined_example :
    is_defined platform (interleave platform main_goes told_of)
    ≡ not (is_bad_step platform main_goes told_of)
run_interleaved_defined_example =
    run_interleaved_defined platform tale main_goes both told_of refl refl both_due-SlotsOk
      tale_returns

abbrev reading : Interleaved platform
reading = record counting { left = read_x ∷ [] }

-- The x of 3 is a good index, and that of -1 is not.
read_defined :
    is_defined platform
      (interleave platform main_goes (record reading { system = with_x (pos 3) counting.system }))
    ≡ true
unfolding interleave f
read_defined = refl

read_undefined :
    is_defined platform (
      interleave platform main_goes (record reading { system = with_x (negsuc 0) counting.system }))
    ≡ false
unfolding interleave f
read_undefined = refl

exec_all-call_example :
    world_of platform
      (exec_all platform (accesses task_5ms) (record { local = unset; world = world }))
    ≡ call platform task_5ms world
exec_all-call_example = exec_all-call platform task_5ms (record { local = unset; world = world })

abbrev reset : Interleaved platform
reset = record { system = at_reset; local = unset; left = [] }

abbrev begun : Interleaved platform
begun =
    elim (run_interleaved platform (main_goes ∷ main_goes ∷ [])
      (enter_main_loop platform arrivals reset)) [ none ↦ reset | some s ↦ s ]

begun_returns :
    run_interleaved platform (main_goes ∷ main_goes ∷ []) (enter_main_loop platform arrivals reset)
    ≡ some begun
unfolding run_interleaved start boot_interrupted scheduler_enable
begun_returns = refl

from_reset_sound_example :
    (begun.system.phase ≢ fault)
    × SlotsOk tasks begun.system.world.scheduler.queue
    × (receive idle begun.system.world.writes ++ owed platform begun.left begun.system.world.counter
        ≡ told platform 0 (
            all_calls platform
              (main_goes ∷ main_goes ∷ [])
              (enter_main_loop platform arrivals reset))
          ++ pending platform begun.system)
from_reset_sound_example =
    from_reset_sound platform arrivals (main_goes ∷ main_goes ∷ []) reset begun (omega arith) refl
      refl begun_returns
