-- ===== src/Scheduler/Safety.antt =====
-- The main loop never reads through a null pointer and calls each task from its own slot,
-- wherever the timer interrupts it.
use mathlib.Core.Path.{subst}
use trace_fs.Base.{
  ℕ, ◌≡◌, ◌≢◌, List, [], ◌∷◌, Option, none, some, get_elem?, arith, ltb, ◌==◌, refl, inl, inr,
  Bool-cases,
}
use trace_fs.Scheduler.{
  Queue, Entry, task_5ms, task_10ms, task_100ms, task_1000ms, num_tasks, Task, Scheduler, tasks,
  scheduler_next,
}
use trace_fs.Scheduler.Slots.{
  SlotsOk, SlotsOk-set-none, SlotsOk-get, scheduler_next-SlotsOk, scheduler_next-full,
}
use trace_fs.Scheduler.Run.{
  step_at, test_slot, enter, Phase, at_while, at_slot, at_trace, at_entry, in_task, stopped, fault,
  Machine, Event, main, ticked, main_step, tick, step, run, slot, enter_run,
}

-- Slot i is full and holds the task of its index.
abbrev pub FullSlot : ℕ → Scheduler → Type 0
FullSlot i s = (t : Task) × (get_elem? s.queue i ≡ some (some t))

abbrev pub PhaseOk : Phase → Scheduler → Type 0
PhaseOk at_while s = Unit
PhaseOk (at_slot i) s = Unit
PhaseOk (at_trace i) s = FullSlot i s
PhaseOk (at_entry i) s = FullSlot i s
PhaseOk (in_task i t) s = (get_elem? s.queue i ≡ some (some t)) × (get_elem? tasks i ≡ some t)
PhaseOk stopped s = Unit
PhaseOk fault s = ⊥

pub record IsSafe (m : Machine) : Type 0 where
  pub slots : SlotsOk tasks m.scheduler.queue
  pub place : PhaseOk m.phase m.scheduler

PhaseOk-next :
    (p : Phase) (s : Scheduler) → SlotsOk tasks s.queue → PhaseOk p s → PhaseOk p (scheduler_next s)
PhaseOk-next at_while s ok h = tt
PhaseOk-next (at_slot i) s ok h = tt
PhaseOk-next (at_trace i) s ok h = (h.0, scheduler_next-full s i h.0 ok h.1)
PhaseOk-next (at_entry i) s ok h = (h.0, scheduler_next-full s i h.0 ok h.1)
PhaseOk-next (in_task i t) s ok h = (scheduler_next-full s i t ok h.0, h.1)
PhaseOk-next stopped s ok h = tt
PhaseOk-next fault s ok h = h

tick-IsSafe : (m : Machine) → IsSafe m → IsSafe (tick m)
unfolding tick
tick-IsSafe m h = record {
  slots = scheduler_next-SlotsOk m.scheduler h.slots;
  place = PhaseOk-next m.phase m.scheduler h.slots h.place;
}

-- A slot that reads as a task is that element of the queue, and the other way round.
slot-some : (q : Queue) (i : ℕ) (t : Task) → slot q i ≡ some t → get_elem? q i ≡ some (some t)
slot-some q i t e = ground arith

pub slot-full : (q : Queue) (i : ℕ) (t : Task) → get_elem? q i ≡ some (some t) → slot q i ≡ some t
slot-full q i t e = ground arith

PhaseOk-test :
    (i : ℕ) (o : Option Task) (s : Scheduler) → slot s.queue i ≡ o → PhaseOk (test_slot i o) s
PhaseOk-test i none s e = tt
PhaseOk-test i (some t) s e = (t, slot-some s.queue i t e)

-- Entering a task keeps the queue.
pub queue-enter : (e : Entry) (s : Scheduler) → (enter e s).queue ≡ s.queue
queue-enter task_5ms s = refl
queue-enter task_10ms s = refl
queue-enter task_100ms s = refl
queue-enter task_1000ms s = refl

step_at-IsSafe :
    (p : Phase) (m : Machine)
    → SlotsOk tasks m.scheduler.queue
    → PhaseOk p m.scheduler
    → m.phase ≡ p
    → IsSafe (step_at p m)
step_at-IsSafe at_while m ok h e = elim (Bool-cases (m.scheduler.enabled == 0)) [
  | inl off ↦ rw off (record { slots = ok; place = tt })
  | inr on ↦ rw on (record { slots = ok; place = tt })
]
step_at-IsSafe (at_slot i) m ok h e = elim (Bool-cases (ltb i num_tasks)) [
  | inl below ↦
      rw below
        (record { slots = ok; place = PhaseOk-test i (slot m.scheduler.queue i) m.scheduler refl })
  | inr above ↦ rw above (record { slots = ok; place = tt })
]
step_at-IsSafe (at_trace i) m ok h e =
    rw (slot-full m.scheduler.queue i h.0 h.1) (record { slots = ok; place = h })
step_at-IsSafe (at_entry i) m ok h e = rw (slot-full m.scheduler.queue i h.0 h.1) (record {
  slots = rw (queue-enter h.0.entry m.scheduler) ok;
  place = (
    rw (queue-enter h.0.entry m.scheduler) h.1,
    SlotsOk-get tasks m.scheduler.queue i h.0 ok h.1,
  );
})
step_at-IsSafe (in_task i t) m ok h e = record {
  slots = SlotsOk-set-none tasks m.scheduler.queue i ok;
  place = tt;
}
step_at-IsSafe stopped m ok h e = record { slots = ok; place = rw e tt }
step_at-IsSafe fault m ok h e = absurd h

pub step-IsSafe : (e : Event) (m : Machine) → IsSafe m → IsSafe (step e m)
unfolding step main_step
step-IsSafe main m h = step_at-IsSafe m.phase m h.slots h.place refl
step-IsSafe ticked m h = tick-IsSafe m h

pub run-IsSafe : (es : List Event) (m : Machine) → IsSafe m → IsSafe (run es m)
unfolding run
run-IsSafe [] m h = h
run-IsSafe (e ∷ es) m h = run-IsSafe es (step e m) (step-IsSafe e m h)

-- From a well-formed queue, under every schedule of steps and interrupts, the loop never reads
-- through a null pointer; every slot stays null or on its own task; behind the test of a slot, and
-- while its task runs, the slot is full, and the running task is the one of that slot.
pub run-no_fault :
    (es : List Event) (s : Scheduler)
    → SlotsOk tasks s.queue
    → let m = run es (enter_run s) in
      (m.phase ≢ fault) × SlotsOk tasks m.scheduler.queue × PhaseOk m.phase m.scheduler
run-no_fault es s ok = (no_fault _ _ safe.place, safe.slots, safe.place)
  where
    safe : IsSafe (run es (enter_run s))
    safe = run-IsSafe es (enter_run s) (record { slots = ok; place = tt })

    no_fault : (p : Phase) (s : Scheduler) → PhaseOk p s → p ≢ fault
    no_fault p s h e = subst (λ (p : Phase). PhaseOk p s) e h
