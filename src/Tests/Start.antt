-- ===== src/Tests/Start.antt =====
-- Traps while the firmware starts, and behind it.
use trace_fs.Base.{◌≤◌, replicate, [], ◌∷◌, List, none, some, bit_at, ◌≡◌, ◌≢◌, refl}
use trace_fs.Scheduler.{Queue, task_5ms, tasks, scheduler_enable}
use trace_fs.Scheduler.Slots.{SlotsOk}
use trace_fs.Scheduler.Run.{main, ticked, fault, at_while, run, enter_run}
use trace_fs.Trap.Interruptible.{Arrival, Running}
use trace_fs.Boot.Stages.{boot_interrupted}
use trace_fs.Boot.Interrupted.{boot_interrupted-ready}
use trace_fs.System.{System, main_goes, run_system, happen}
use trace_fs.System.Start.{start}
use trace_fs.Tests.Panel.{panel}
use trace_fs.Tests.Boards.{interrupted, platform, world}

-- All interrupts are raised, and trap.
abbrev arrival : Arrival panel
arrival = record { mcause = 0x8000_000b; mepc = 0x100; arrive = λ d. record d { raised = 15 } }

-- A trap before the ticks are reset, and two before the second slot is.
abbrev pub arrivals : List (List (Arrival panel))
arrivals = [] ∷ (arrival ∷ []) ∷ [] ∷ (arrival ∷ arrival ∷ []) ∷ []

-- No slot is null, and none is on its own task.
abbrev pub garbage : Queue
garbage = replicate 4 (some (record { id = 7; entry = task_5ms; period = 3; priority = 9 }))

abbrev from_garbage : Running panel
from_garbage = record {
  firmware = record interrupted { scheduler = record { queue = garbage; enabled = 0; ticks = 77 } };
  due = arrivals;
}

boot_interrupted-ready_example :
    let f = (boot_interrupted panel from_garbage).firmware in
    SlotsOk tasks f.scheduler.queue
    × (f.scheduler.ticks ≤ 3)
    × (f.scheduler.enabled ≡ 1)
    × (bit_at 3 f.csrs.mstatus ≡ 1)
    × ((run (main ∷ ticked ∷ main ∷ []) (enter_run f.scheduler)).phase ≢ fault)
boot_interrupted-ready_example =
    boot_interrupted-ready panel from_garbage (main ∷ ticked ∷ main ∷ []) refl

abbrev pub at_reset : System platform
at_reset = record { world = world; csrs = interrupted.csrs; heartbeat = 0; phase = at_while }

abbrev arrived : System platform
arrived =
    elim (run_system platform (main_goes ∷ main_goes ∷ []) (start platform arrivals at_reset)) [
      | none ↦ at_reset
      | some s ↦ s
    ]

arrived_returns :
    run_system platform (main_goes ∷ main_goes ∷ []) (start platform arrivals at_reset)
    ≡ some arrived
unfolding run_system happen start boot_interrupted scheduler_enable
arrived_returns = refl
