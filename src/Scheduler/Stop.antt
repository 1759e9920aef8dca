-- ===== src/Scheduler/Stop.antt =====
-- Once the scheduler is disabled, the main loop ends whatever the interrupts do.
use trace_fs.Base.{
  ℕ, suc, ◌+◌, ◌-◌, ◌*◌, ◌<◌, ◌≤◌, ◌≡◌, List, [], ◌∷◌, Option, none, some, get_elem?, arith, refl,
  Bool-cases, ltb→lt, ltb, inl, inr,
}
use trace_fs.Scheduler.{
  Task, Scheduler, tasks, num_tasks, scheduler_next, Entry, task_5ms, task_10ms, task_100ms,
  task_1000ms,
}
use trace_fs.Scheduler.Slots.{SlotsOk, SlotsOk-get, get_elem?-lt}
use trace_fs.Scheduler.Run.{
  Phase, at_while, at_slot, at_trace, at_entry, in_task, stopped, fault, Machine, Event, main,
  ticked, main_step, tick, step, step_at, test_slot, run, slot, enter,
}
use trace_fs.Scheduler.Safety.{IsSafe, PhaseOk, slot-full, step-IsSafe}

-- How many steps of the main program the loop has left at most.
abbrev pub rank : Phase → ℕ
rank at_while = 1
rank (at_slot i) = 2 + 4 * (4 - i)
rank (at_trace i) = 1 + 4 * (4 - i)
rank (at_entry i) = 4 * (4 - i)
rank (in_task i t) = 4 * (4 - i) - 1
rank stopped = 0
rank fault = 0

abbrev pub main_steps : List Event → ℕ
main_steps [] = 0
main_steps (main ∷ es) = suc (main_steps es)
main_steps (ticked ∷ es) = main_steps es

rank-test : (i : ℕ) (o : Option Task) → i < 4 → rank (test_slot i o) < 2 + 4 * (4 - i)
rank-test i none h = omega arith
rank-test i (some t) h = omega arith

-- A full slot is one of the table.
pub full-lt :
    (i : ℕ) (t : Task) (s : Scheduler)
    → SlotsOk tasks s.queue
    → get_elem? s.queue i ≡ some (some t)
    → i < 4
full-lt i t s ok h = get_elem?-lt tasks i t (SlotsOk-get tasks s.queue i t ok h)

enabled-enter : (e : Entry) (s : Scheduler) → s.enabled ≡ 0 → (enter e s).enabled ≡ 0
enabled-enter task_5ms s h = h
enabled-enter task_10ms s h = h
enabled-enter task_100ms s h = h
enabled-enter task_1000ms s h = refl

-- With the scheduler disabled a step lowers the rank and leaves it disabled.
step_at-rank :
    (p : Phase) (m : Machine)
    → SlotsOk tasks m.scheduler.queue
    → PhaseOk p m.scheduler
    → m.phase ≡ p
    → m.scheduler.enabled ≡ 0
    → (rank (step_at p m).phase ≤ rank p - 1) × ((step_at p m).scheduler.enabled ≡ 0)
step_at-rank at_while m ok h e off = ground arith
step_at-rank (at_slot i) m ok h e off = elim (Bool-cases (ltb i num_tasks)) [
  | inl below ↦ rw below (omega (arith, rank-test i (slot m.scheduler.queue i) (ltb→lt i 4 below)))
  | inr above ↦ rw above (omega arith)
]
step_at-rank (at_trace i) m ok h e off =
    rw (slot-full m.scheduler.queue i h.0 h.1) (omega (arith, full-lt i h.0 m.scheduler ok h.1))
step_at-rank (at_entry i) m ok h e off =
    rw (slot-full m.scheduler.queue i h.0 h.1)
      (omega (arith, full-lt i h.0 m.scheduler ok h.1), enabled-enter h.0.entry m.scheduler off)
step_at-rank (in_task i t) m ok h e off = (omega (arith, full-lt i t m.scheduler ok h.0), off)
step_at-rank stopped m ok h e off = (rw e (omega arith), off)
step_at-rank fault m ok h e off = absurd h

rank-zero :
    (p : Phase) (s : Scheduler) → SlotsOk tasks s.queue → PhaseOk p s → rank p ≤ 0 → p ≡ stopped
rank-zero stopped s ok h r = refl
rank-zero at_while s ok h r = absurd (omega arith)
rank-zero (at_slot i) s ok h r = absurd (omega arith)
rank-zero (at_trace i) s ok h r = absurd (omega arith)
rank-zero (at_entry i) s ok h r = absurd (omega (arith, full-lt i h.0 s ok h.1))
rank-zero (in_task i t) s ok h r = absurd (omega (arith, full-lt i t s ok h.0))
rank-zero fault s ok h r = absurd h

-- From any safe state with the scheduler disabled, every schedule with as many steps of the main
-- program as the rank of its place, and any interrupts between them, ends behind the loop.
pub run-stops :
    (es : List Event) (m : Machine)
    → IsSafe m
    → m.scheduler.enabled ≡ 0
    → rank m.phase ≤ main_steps es
    → (run es m).phase ≡ stopped
unfolding run step main_step tick scheduler_next
run-stops [] m safe off h = rank-zero m.phase m.scheduler safe.slots safe.place h
run-stops (main ∷ es) m safe off h =
    let s = step_at-rank m.phase m safe.slots safe.place refl off in
    run-stops es (step main m) (step-IsSafe main m safe) s.1 (omega arith)
run-stops (ticked ∷ es) m safe off h =
    run-stops es (step ticked m) (step-IsSafe ticked m safe) off h
