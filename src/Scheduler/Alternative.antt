-- ===== src/Scheduler/Alternative.antt =====
-- firmware/emsa5/scheduler.c: the alternative body of the main loop behind `#else`, with a block for
-- each slot that calls the function of its task by name.

use trace_fs.Base.{
  some_inj, ℕ, zero, suc, ◌+◌, ◌≡◌, refl, sym, List, [], ◌∷◌, ◌++◌, some, get_elem?, ltb, ◌==◌,
  if◌then◌else◌,
}
use trace_fs.Scheduler.{Task, Entry, task_5ms, task_10ms, task_100ms, task_1000ms, tasks, num_tasks}
use trace_fs.Scheduler.Slots.{SlotsOk, SlotsOk-get}
use trace_fs.Scheduler.Run.{
  Phase, at_while, at_slot, at_trace, at_entry, in_task, stopped, fault, Machine, Event, main,
  ticked, step_at, trace_slot, enter, slot, test_slot, clear_slot, tick, run, step, main_step,
}
use trace_fs.Scheduler.Safety.{IsSafe, PhaseOk, slot-full, step-IsSafe}

-- The function that the block of slot i calls, and the task that it belongs to.
abbrev pub block_entry : ℕ → Entry
block_entry zero = task_5ms
block_entry (suc zero) = task_10ms
block_entry (suc (suc zero)) = task_100ms
block_entry (suc (suc (suc i))) = task_1000ms

abbrev pub block_task : ℕ → Task
block_task zero = record { id = 1; entry = task_5ms; period = 5; priority = 0 }
block_task (suc zero) = record { id = 2; entry = task_10ms; period = 10; priority = 1 }
block_task (suc (suc zero)) = record { id = 3; entry = task_100ms; period = 100; priority = 2 }
block_task (suc (suc (suc i))) = record { id = 4; entry = task_1000ms; period = 1000; priority = 3 }

-- The call does not read the slot.
abbrev pub call_block : ℕ → Machine → Machine
call_block i m = record m {
  phase = in_task i (block_task i);
  scheduler = enter (block_entry i) m.scheduler;
  calls = m.calls ++ (block_task i ∷ []);
}

-- One step, by its place: at slot i before block i, at slot 4 behind the last block.
abbrev pub alternative_at : Phase → Machine → Machine
alternative_at at_while m =
    if m.scheduler.enabled == 0
    then record m { phase = stopped }
    else record m { phase = at_slot 0 }
alternative_at (at_slot i) m =
    if ltb i num_tasks
    then record m { phase = test_slot i (slot m.scheduler.queue i) }
    else record m { phase = at_while }
alternative_at (at_trace i) m = trace_slot i (slot m.scheduler.queue i) m
alternative_at (at_entry i) m = call_block i m
alternative_at (in_task i t) m = record m {
  phase = at_slot (i + 1);
  scheduler = clear_slot i m.scheduler;
}
alternative_at stopped m = m
alternative_at fault m = m

unfoldable pub alternative_step : Event → Machine → Machine
unfolding tick
alternative_step main m = alternative_at m.phase m
alternative_step ticked m = tick m

unfoldable pub alternative_run : List Event → Machine → Machine
unfolding alternative_step
alternative_run [] m = m
alternative_run (e ∷ es) m = alternative_run es (alternative_step e m)

-- A task of the table is the one of the block at its index.
task-block : (i : ℕ) (t : Task) → get_elem? tasks i ≡ some t → t ≡ block_task i
task-block zero t e = some_inj t _ (sym e)
task-block (suc zero) t e = some_inj t _ (sym e)
task-block (suc (suc zero)) t e = some_inj t _ (sym e)
task-block (suc (suc (suc zero))) t e = some_inj t _ (sym e)
task-block (suc (suc (suc (suc i)))) t e = absurd (cc)

entry-block : (i : ℕ) → (block_task i).entry ≡ block_entry i
entry-block zero = refl
entry-block (suc zero) = refl
entry-block (suc (suc zero)) = refl
entry-block (suc (suc (suc i))) = refl

alternative_at-same :
    (p : Phase) (m : Machine)
    → SlotsOk tasks m.scheduler.queue
    → PhaseOk p m.scheduler
    → alternative_at p m ≡ step_at p m
alternative_at-same at_while m ok h = refl
alternative_at-same (at_slot i) m ok h = refl
alternative_at-same (at_trace i) m ok h = refl
alternative_at-same (at_entry i) m ok h =
    rw
      (
        slot-full m.scheduler.queue i h.0 h.1,
        task-block i h.0 (SlotsOk-get tasks m.scheduler.queue i h.0 ok h.1),
        entry-block i,
      )
      refl
alternative_at-same (in_task i t) m ok h = refl
alternative_at-same stopped m ok h = refl
alternative_at-same fault m ok h = absurd h

-- From any safe state and under every schedule of steps and interrupts, the alternative body of the
-- loop does what the body in use does: it reads the same slots, writes the same trace, and calls the
-- same tasks.
pub alternative_run-run :
    (es : List Event) (m : Machine) → IsSafe m → alternative_run es m ≡ run es m
unfolding alternative_run alternative_step run step main_step
alternative_run-run [] m safe = refl
alternative_run-run (main ∷ es) m safe =
    rw (alternative_at-same m.phase m safe.slots safe.place)
      (alternative_run-run es (step main m) (step-IsSafe main m safe))
alternative_run-run (ticked ∷ es) m safe =
    alternative_run-run es (tick m) (step-IsSafe ticked m safe)
