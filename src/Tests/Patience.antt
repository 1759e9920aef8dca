-- ===== src/Tests/Patience.antt =====
-- Runs that are long enough for a call, and for the end of the main loop.
use trace_fs.Base.{inl, inr, replicate, [], ◌∷◌, ◌++◌, arith, List, none, some, ◌≡◌, refl}
use trace_fs.Scheduler.{Task, tasks, task_1000ms, scheduler_next}
use trace_fs.Scheduler.Slots.{SlotsOk}
use trace_fs.Scheduler.Run.{stopped, in_task}
use trace_fs.Hal.Irq.{irq_is_pending_interrupt, irq_acknowledge_interrupt}
use trace_fs.Hal.Led.{led_toggle}
use trace_fs.Hal.Timer.{timer_acknowledge_timer}
use trace_fs.Asw.Scenarios.{f}
use trace_fs.Tasks.Accesses.{disable_accesses}
use trace_fs.Trap.{handle_trap}
use trace_fs.System.{Happening, main_goes, trapped}
use trace_fs.Interleaved.{Interleaved, run_interleaved, all_calls}
use trace_fs.Interleaved.Liveness.{run_interleaved-Called, run_interleaved-stops}
use trace_fs.Tests.Boards.{platform}
use trace_fs.Tests.Whole.{both_due-SlotsOk, rings, second_task}
use trace_fs.Tests.Inside.{unset, both}

-- Eighty steps of the main program, and no trap.
abbrev undisturbed : List (Happening platform)
undisturbed = replicate 80 main_goes

abbrev afterwards : Interleaved platform
afterwards = elim (run_interleaved platform undisturbed both) [ none ↦ both | some s ↦ s ]

undisturbed_returns : run_interleaved platform undisturbed both ≡ some afterwards
unfolding run_interleaved f
undisturbed_returns = refl

run_interleaved-Called_example :
    (before : List Task) × (after : List Task) × (all_calls platform undisturbed both
      ≡ before ++ (second_task ∷ after))
run_interleaved-Called_example =
    run_interleaved-Called platform undisturbed both afterwards 1 second_task both_due-SlotsOk tt
      refl refl (omega arith) (omega arith) undisturbed_returns

-- The function of the fourth task is about to disable the scheduler, and a trap comes before it
-- writes to the timer.
abbrev fourth_task : Task
fourth_task = record { id = 4; entry = task_1000ms; period = 1000; priority = 3 }

abbrev disabling : Interleaved platform
disabling = record {
  system = record both.system {
    world = record both.system.world {
      scheduler = record {
        queue = none ∷ none ∷ none ∷ some fourth_task ∷ [];
        enabled = 1;
        ticks = 1000;
      };
    };
    phase = in_task 3 fourth_task;
  };
  local = unset;
  left = disable_accesses;
}

disabling-SlotsOk : SlotsOk tasks disabling.system.world.scheduler.queue
disabling-SlotsOk = (inl refl, (inl refl, (inl refl, (inr refl, tt))))

abbrev last_steps : List (Happening platform)
last_steps = main_goes ∷ main_goes ∷ trapped 0x8000_000b 0x100 rings ∷ replicate 90 main_goes

abbrev halted : Interleaved platform
halted = elim (run_interleaved platform last_steps disabling) [ none ↦ both | some s ↦ s ]

last_steps_return : run_interleaved platform last_steps disabling ≡ some halted
unfolding run_interleaved handle_trap irq_is_pending_interrupt led_toggle irq_acknowledge_interrupt
    timer_acknowledge_timer scheduler_next
last_steps_return = refl

run_interleaved-stops_example : halted.system.phase ≡ stopped
run_interleaved-stops_example =
    run_interleaved-stops platform last_steps disabling halted disabling-SlotsOk (refl, refl) refl
      (omega arith) last_steps_return
