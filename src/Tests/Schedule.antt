-- ===== src/Tests/Schedule.antt =====
-- Inputs for the scheduler: the state behind `scheduler_init`, and a schedule that reaches a task.
use trace_fs.Base.{
  [], ◌∷◌, ◌+◌, ◌%◌, ◌^◌, none, some, get_elem?, replicate, List, ◌==◌, if◌then◌else◌, arith, ◌≡◌,
  ◌≢◌, refl, inl, inr,
}
use trace_fs.Scheduler.{
  Scheduler, Task, tasks, task_5ms, task_100ms, scheduler_next, release_from, release,
}
use trace_fs.Scheduler.Slots.{SlotsOk, scheduler_next-slots}
use trace_fs.Scheduler.Run.{
  Machine, Event, main, ticked, in_task, at_slot, fault, run, step, tick, main_step, enter_run,
}
use trace_fs.Scheduler.Safety.{IsSafe, PhaseOk, run-no_fault}
use trace_fs.Scheduler.Lost.{run-lost}
use trace_fs.Scheduler.Called.{Called}
use trace_fs.Scheduler.Lost.{run-lost}
use trace_fs.Scheduler.Released.{run-released_Called}
use trace_fs.Scheduler.Alternative.{alternative_run, alternative_run-run}

abbrev first_task : Task
first_task = record { id = 1; entry = task_5ms; period = 5; priority = 0 }

-- One tick before the first release of a task.
abbrev before_release : Scheduler
before_release = record { queue = replicate 4 none; enabled = 1; ticks = 4 }

empty_queue : SlotsOk tasks before_release.queue
empty_queue = (inl refl, (inl refl, (inl refl, (inl refl, tt))))

-- The tick falls behind the test of `while`; then the first task is found, traced and called.
abbrev schedule : List Event
schedule = main ∷ ticked ∷ main ∷ main ∷ main ∷ []

-- The schedule calls the task.
schedule_calls : (run schedule (enter_run before_release)).calls ≡ first_task ∷ []
unfolding run step tick main_step scheduler_next release_from release
schedule_calls = refl

scheduler_next-slots_example :
    get_elem? (scheduler_next before_release).queue 0
    ≡ (if (4 + 1) % 2 ^ 32 % 5 == 0 then some (some first_task) else some none)
scheduler_next-slots_example = scheduler_next-slots before_release 0 first_task empty_queue refl

run-no_fault_example :
    let m = run schedule (enter_run before_release) in
    (m.phase ≢ fault) × SlotsOk tasks m.scheduler.queue × PhaseOk m.phase m.scheduler
run-no_fault_example = run-no_fault schedule before_release empty_queue

-- The first task runs.
abbrev running : Machine
running = record {
  scheduler = record { queue = some first_task ∷ none ∷ none ∷ none ∷ []; enabled = 1; ticks = 5 };
  phase = in_task 0 first_task;
  trace = [];
  calls = first_task ∷ [];
}

running-IsSafe : IsSafe running
running-IsSafe = record {
  slots = (inr refl, (inl refl, (inl refl, (inl refl, tt))));
  place = (refl, refl);
}

-- The task was due at time 5, and it is due again at 10 while it runs. It returns at 11, and 15 is the
-- next time that it is due at.
run-lost_example :
    let m' =
      run
        (main ∷ ticked ∷ main ∷ main ∷ ticked ∷ [])
        (run (ticked ∷ ticked ∷ ticked ∷ ticked ∷ ticked ∷ ticked ∷ main ∷ []) running) in
    (get_elem? m'.scheduler.queue 0 ≡ some none) × (m'.phase ≢ in_task 0 first_task)
run-lost_example =
    run-lost 6 (main ∷ ticked ∷ main ∷ main ∷ ticked ∷ []) running 0 first_task running-IsSafe refl
      (omega arith) refl

-- The task of the first slot runs, and with the next tick the one of the third is due.
abbrev third_task : Task
third_task = record { id = 3; entry = task_100ms; period = 100; priority = 2 }

abbrev busy : Machine
busy = record {
  scheduler = record { queue = some first_task ∷ none ∷ none ∷ none ∷ []; enabled = 1; ticks = 99 };
  phase = in_task 0 first_task;
  trace = [];
  calls = first_task ∷ [];
}

busy-IsSafe : IsSafe busy
busy-IsSafe = record {
  slots = (inr refl, (inl refl, (inl refl, (inl refl, tt))));
  place = (refl, refl);
}

run-released_Called_example : Called third_task busy (
    run
      (ticked ∷ main ∷ main ∷ ticked ∷ main ∷ main ∷ main ∷ ticked ∷ main ∷ main ∷ main ∷ main ∷ [])
      busy)
run-released_Called_example =
    run-released_Called
      (main ∷ main ∷ ticked ∷ main ∷ main ∷ main ∷ ticked ∷ main ∷ main ∷ main ∷ main ∷ []) busy 2
      third_task busy-IsSafe refl refl (omega arith) (omega arith)

-- The first slot is looked at, one tick before the first task is due.
abbrev waiting : Machine
waiting = record { scheduler = before_release; phase = at_slot 0; trace = []; calls = [] }

waiting-IsSafe : IsSafe waiting
waiting-IsSafe = record { slots = empty_queue; place = tt }

alternative_run-run_example :
    alternative_run (ticked ∷ main ∷ main ∷ main ∷ main ∷ main ∷ []) waiting
    ≡ run (ticked ∷ main ∷ main ∷ main ∷ main ∷ main ∷ []) waiting
alternative_run-run_example =
    alternative_run-run (ticked ∷ main ∷ main ∷ main ∷ main ∷ main ∷ []) waiting waiting-IsSafe
