-- ===== src/Tests/Whole.antt =====
-- A run of the whole firmware that calls a task and takes a trap.
use trace_fs.Base.{[], ◌∷◌, List, none, some, ◌≡◌, refl, inl, inr}
use trace_fs.Scheduler.{
  Task, Scheduler, tasks, task_10ms, task_100ms, scheduler_next, release_from, release,
}
use trace_fs.Scheduler.Slots.{SlotsOk}
use trace_fs.Scheduler.Run.{at_while, at_entry}
use trace_fs.Tasks.{call}
use trace_fs.Trap.{handle_trap}
use trace_fs.Hal.Irq.{irq_is_pending_interrupt, irq_acknowledge_interrupt}
use trace_fs.Hal.Led.{led_toggle}
use trace_fs.Hal.Timer.{timer_acknowledge_timer}
use trace_fs.Asw.Scenarios.{task_100ms_nexus}
use trace_fs.System.{System, Happening, main_goes, trapped, trap, happen, run_system}
use trace_fs.System.Told.{called as called_tasks}
use trace_fs.Tests.Panel.{Panel}
use trace_fs.Tests.Boards.{platform, world}

abbrev pub second_task : Task
second_task = record { id = 2; entry = task_10ms; period = 10; priority = 1 }

abbrev pub third_task : Task
third_task = record { id = 3; entry = task_100ms; period = 100; priority = 2 }

-- The second task is due.
abbrev due : Scheduler
due = record { queue = none ∷ some second_task ∷ none ∷ none ∷ []; enabled = 1; ticks = 10 }

abbrev whole : System platform
whole = record {
  world = record world { scheduler = due };
  csrs = record { mstatus = 0x1888; mie = 0x800 };
  heartbeat = 0;
  phase = at_while;
}

-- All interrupts are raised.
abbrev pub rings : Panel → Panel
rings d = record d { raised = 15 }

abbrev story : List (Happening platform)
story =
    main_goes ∷ main_goes ∷ main_goes ∷ main_goes ∷ main_goes ∷ trapped 0x8000_000b 0x100 rings ∷ []

abbrev called : System platform
called =
    elim (run_system platform (main_goes ∷ main_goes ∷ main_goes ∷ main_goes ∷ main_goes ∷ [])
      whole) [ none ↦ whole | some s ↦ s ]

story_returns :
    run_system platform story whole ≡ some (trap platform 0x8000_000b 0x100 rings called)
unfolding run_system happen call
story_returns = refl

-- The task of 100 ms is about to be called, with the good index 1.
abbrev pub calling : System platform
calling = record whole {
  world = record world {
    scheduler = record due { queue = none ∷ none ∷ some third_task ∷ none ∷ [] };
  };
  phase = at_entry 2;
}

-- The second and the third task are due, and the run calls both.
abbrev pub both_due : System platform
both_due = record whole {
  world = record world {
    scheduler = record due { queue = none ∷ some second_task ∷ some third_task ∷ none ∷ [] };
    counter = 10;
  };
}

abbrev long_story : List (Happening platform)
long_story =
    main_goes
    ∷ main_goes
    ∷ main_goes
    ∷ main_goes
    ∷ main_goes
    ∷ main_goes
    ∷ main_goes
    ∷ trapped 0x8000_000b 0x100 rings
    ∷ main_goes
    ∷ main_goes
    ∷ []

abbrev both_called : System platform
both_called = elim (run_system platform long_story both_due) [ none ↦ both_due | some s ↦ s ]

both_called_returns : run_system platform long_story both_due ≡ some both_called
unfolding run_system happen trap call handle_trap irq_is_pending_interrupt irq_acknowledge_interrupt
    led_toggle timer_acknowledge_timer scheduler_next release_from release task_100ms_nexus
both_called_returns = refl

both_called_tasks : called_tasks platform long_story both_due ≡ second_task ∷ third_task ∷ []
unfolding called_tasks run_system happen trap call handle_trap irq_is_pending_interrupt
    irq_acknowledge_interrupt led_toggle timer_acknowledge_timer scheduler_next release_from release
    task_100ms_nexus
both_called_tasks = refl

pub both_due-SlotsOk : SlotsOk tasks both_due.world.scheduler.queue
both_due-SlotsOk = (inl refl, (inr refl, (inr refl, (inl refl, tt))))
