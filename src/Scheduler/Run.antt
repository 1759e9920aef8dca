-- ===== src/Scheduler/Run.antt =====
-- `scheduler_run` of firmware/emsa5/scheduler.c as steps between two volatile accesses, so that a
-- timer interrupt may run `scheduler_next` between any two of them. A task is opaque, but for
-- what it does to the scheduler: `task_1000ms` disables it (firmware/emsa5/task_1000ms.c).
use trace_fs.Base.{
  ℕ, ◌+◌, List, [], ◌∷◌, ◌++◌, Option, none, some, get_elem?, set, ltb, ◌==◌, if◌then◌else◌,
}
use trace_fs.Ctrace.Emit.{CsrWrite, ownership_trace}
use trace_fs.Scheduler.{
  Entry, task_5ms, task_10ms, task_100ms, task_1000ms, Task, Queue, Scheduler, num_tasks,
  scheduler_next,
}

-- Where the main program is: at the test of `while`, at the test of slot i, before each of the
-- three reads through slot i, in the function of a task, or behind the loop. `fault` is a read
-- through a null pointer.
pub data Phase : Type 0 where
  at_while : Phase
  at_slot : ℕ → Phase
  at_trace : ℕ → Phase
  at_entry : ℕ → Phase
  in_task : ℕ → Task → Phase
  stopped fault : Phase

-- `trace` holds the CSR writes that the loop itself makes, without those of the tasks' functions
-- (which `System` and `Interleaved` have), and `calls` the tasks that were called, oldest first.
pub record Machine : Type 0 where
  pub scheduler : Scheduler
  pub phase : Phase
  pub trace : List CsrWrite
  pub calls : List Task

-- What a task's function does to the scheduler's state.
abbrev pub enter : Entry → Scheduler → Scheduler
enter task_1000ms s = record s { enabled = 0 }
enter task_5ms s = s
enter task_10ms s = s
enter task_100ms s = s

-- `scheduler_queue[i]`, null behind the end, where the loop never reads.
abbrev pub slot : Queue → ℕ → Option Task
slot q i = elim (get_elem? q i) [ none ↦ none | some o ↦ o ]

abbrev pub test_slot : ℕ → Option Task → Phase
test_slot i none = at_slot (i + 1)
test_slot i (some t) = at_trace i

abbrev pub trace_slot : ℕ → Option Task → Machine → Machine
trace_slot i none m = record m { phase = fault }
trace_slot i (some t) m = record m { phase = at_entry i; trace = m.trace ++ ownership_trace t.id }

abbrev pub enter_slot : ℕ → Option Task → Machine → Machine
enter_slot i none m = record m { phase = fault }
enter_slot i (some t) m = record m {
  phase = in_task i t;
  scheduler = enter t.entry m.scheduler;
  calls = m.calls ++ (t ∷ []);
}

abbrev pub clear_slot : ℕ → Scheduler → Scheduler
clear_slot i s = record s { queue = set s.queue i none }

-- One step of the main program, by its place.
abbrev pub step_at : Phase → Machine → Machine
step_at at_while m =
    if m.scheduler.enabled == 0
    then record m { phase = stopped }
    else record m { phase = at_slot 0 }
step_at (at_slot i) m =
    if ltb i num_tasks
    then record m { phase = test_slot i (slot m.scheduler.queue i) }
    else record m { phase = at_while }
step_at (at_trace i) m = trace_slot i (slot m.scheduler.queue i) m
step_at (at_entry i) m = enter_slot i (slot m.scheduler.queue i) m
step_at (in_task i t) m = record m { phase = at_slot (i + 1); scheduler = clear_slot i m.scheduler }
step_at stopped m = m
step_at fault m = m

unfoldable pub main_step : Machine → Machine
main_step m = step_at m.phase m

-- The interrupt changes the scheduler's state and not the place of the main program.
unfoldable pub tick : Machine → Machine
tick m = record m { scheduler = scheduler_next m.scheduler }

pub data Event : Type 0 where
  main ticked : Event

unfoldable pub step : Event → Machine → Machine
step main m = main_step m
step ticked m = tick m

-- A schedule: the order in which steps of the main program and interrupts happen.
unfoldable pub run : List Event → Machine → Machine
run [] m = m
run (e ∷ es) m = run es (step e m)

-- The machine that enters `scheduler_run` with a given scheduler.
abbrev pub enter_run : Scheduler → Machine
enter_run s = record { scheduler = s; phase = at_while; trace = []; calls = [] }
