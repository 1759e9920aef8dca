-- ===== src/Scheduler/Released.antt =====
-- A task that falls due is called, whatever interrupts come, once the loop is before its slot.
use trace_fs.Base.{ℕ, ◌+◌, ◌%◌, ◌^◌, ◌≤◌, ◌≡◌, List, ◌∷◌, some, get_elem?, arith}
use trace_fs.Scheduler.{Task, tasks, scheduler_next}
use trace_fs.Scheduler.Slots.{scheduler_next-slots}
use trace_fs.Scheduler.Run.{Machine, Event, ticked, run, step, tick}
use trace_fs.Scheduler.Safety.{IsSafe, step-IsSafe}
use trace_fs.Scheduler.Stop.{main_steps}
use trace_fs.Scheduler.Called.{Ahead, distance, Called, run-Called}

-- From any safe state in which the main program is before the call from slot i in its round, or is
-- at the test of `while` with the scheduler enabled: if the period of the task i divides the new
-- time, then a tick, followed by any schedule with as many steps of the main program as the
-- distance to the call and any further interrupts, leads to a call of the task.
pub run-released_Called :
    (es : List Event) (m : Machine) (i : ℕ) (t : Task)
    → IsSafe m
    → get_elem? tasks i ≡ some t
    → (m.scheduler.ticks + 1) % 2 ^ 32 % t.period ≡ 0
    → Ahead i m.phase m.scheduler.enabled
    → distance i m.phase ≤ main_steps es
    → Called t m (run (ticked ∷ es) m)
unfolding run step tick scheduler_next
run-released_Called es m i t safe entry due a h =
    run-Called es (step ticked m) i t (step-IsSafe ticked m safe) full a h
  where
    full : get_elem? (scheduler_next m.scheduler).queue i ≡ some (some t)
    full = ground (arith, scheduler_next-slots m.scheduler i t safe.slots entry, due)
