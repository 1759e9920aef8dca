-- ===== src/Scheduler/Lost.antt =====
-- What a tick does to a task that is running: the slot is cleared behind the call, so a release
-- that falls due meanwhile is dropped.
use mathlib.Core.Path.{subst}
use trace_fs.Base.{
  ltb, ℕ, zero, suc, ◌+◌, ◌%◌, ◌^◌, ◌<◌, ◌≡◌, [], ◌∷◌, ◌++◌, none, some, get_elem?, replicate,
  arith, refl, get_elem?-set_self, get_elem?-set_ne, length, List, Option, ◌≢◌, ◌∙◌, ap, Bool, true,
  false, Bool-cases, Option-cases, inl, inr, set, ◌==◌, if◌then◌else◌,
}
use native.Mathlib.Decide.{ℕ_discrete}
use trace_fs.Scheduler.{
  num_tasks, Task, Entry, task_5ms, task_10ms, task_100ms, task_1000ms, Queue, Scheduler, tasks,
  scheduler_next,
}
use trace_fs.Scheduler.Slots.{get_elem?-lt, SlotsOk-get, scheduler_next-slots}
use trace_fs.Scheduler.Run.{
  Phase, at_while, at_slot, at_trace, at_entry, in_task, stopped, fault, Machine, Event, enter,
  slot, step_at, main, ticked, main_step, tick, step, run,
}
use trace_fs.Scheduler.Safety.{IsSafe, PhaseOk, step-IsSafe, queue-enter}

finish_clears :
    (m : Machine) (i : ℕ) (t : Task)
    → IsSafe m
    → m.phase ≡ in_task i t
    → ((main_step m).phase ≡ at_slot (i + 1))
      × (get_elem? (main_step m).scheduler.queue i ≡ some none)
      × ((main_step m).scheduler.ticks ≡ m.scheduler.ticks)
unfolding main_step
finish_clears m i t safe e = rw e (refl, get_elem?-set_self m.scheduler.queue i none in_range, refl)
  where
    full : get_elem? m.scheduler.queue i ≡ some (some t)
    full = (subst (λ (p : Phase). PhaseOk p m.scheduler) e safe.place).0

    in_range : i < length m.scheduler.queue
    in_range = get_elem?-lt m.scheduler.queue i (some t) full

-- While a task runs, any number of ticks pass, and then it returns.
returns_lem :
    (n : ℕ) (m : Machine) (i : ℕ) (t : Task)
    → IsSafe m
    → m.phase ≡ in_task i t
    → m.scheduler.ticks < 2 ^ 32
    → let m' = run (replicate n ticked ++ (main ∷ [])) m in
      IsSafe m'
      × (get_elem? tasks i ≡ some t)
      × (get_elem? m'.scheduler.queue i ≡ some none)
      × (m'.scheduler.ticks ≡ (m.scheduler.ticks + n) % 2 ^ 32)
unfolding run step tick scheduler_next
returns_lem zero m i t safe e h =
    let done = finish_clears m i t safe e in
    let full : get_elem? m.scheduler.queue i ≡ some (some t) =
      (subst (λ (p : Phase). PhaseOk p m.scheduler) e safe.place).0 in
    (
      step-IsSafe main m safe,
      SlotsOk-get tasks m.scheduler.queue i t safe.slots full,
      done.1,
      omega (arith, done.2),
    )
returns_lem (suc n) m i t safe e h =
    let rest = returns_lem n (tick m) i t (step-IsSafe ticked m safe) e (omega arith) in
    (rest.0, rest.1, rest.2, omega (arith, rest.3))

-- From this time on, no tick of the schedule is at a multiple of the task's period.
abbrev pub none_due : Task → ℕ → List Event → Bool
none_due t time [] = true
none_due t time (main ∷ es) = none_due t time es
none_due t time (ticked ∷ es) =
    let time' = (time + 1) % 2 ^ 32 in
    let rest = none_due t time' es in if time' % t.period == 0 then false else rest

ticks-enter : (e : Entry) (s : Scheduler) → (enter e s).ticks ≡ s.ticks
ticks-enter task_5ms s = refl
ticks-enter task_10ms s = refl
ticks-enter task_100ms s = refl
ticks-enter task_1000ms s = refl

-- The main program fills no slot, and does not move the time.
step_at-empty :
    (p : Phase) (m : Machine) (i : ℕ)
    → get_elem? m.scheduler.queue i ≡ some none
    → (get_elem? (step_at p m).scheduler.queue i ≡ some none)
      × ((step_at p m).scheduler.ticks ≡ m.scheduler.ticks)
step_at-empty at_while m i e = elim (Bool-cases (m.scheduler.enabled == 0)) [
  | inl off ↦ rw off (e, refl)
  | inr on ↦ rw on (e, refl)
]
step_at-empty (at_slot j) m i e = elim (Bool-cases (ltb j num_tasks)) [
  | inl below ↦ rw below (e, refl)
  | inr above ↦ rw above (e, refl)
]
step_at-empty (at_trace j) m i e = elim (Option-cases (slot m.scheduler.queue j)) [
  | inl n ↦ rw n (e, refl)
  | inr (t, n) ↦ rw n (e, refl)
]
step_at-empty (at_entry j) m i e = elim (Option-cases (slot m.scheduler.queue j)) [
  | inl n ↦ rw n (e, refl)
  | inr (t, n) ↦ rw n (
    ap (λ (q : Queue). get_elem? q i) (queue-enter t.entry m.scheduler) ∙ e,
    ticks-enter t.entry m.scheduler,
  )
]
step_at-empty (in_task j t) m i e = elim (ℕ_discrete j i) [
  | yes p ↦ (
    ap (λ (k : ℕ). get_elem? (set m.scheduler.queue k none) i) p
        ∙ get_elem?-set_self m.scheduler.queue i none (get_elem?-lt m.scheduler.queue i none e),
    refl,
  )
  | no ne ↦ (get_elem?-set_ne m.scheduler.queue {i = j} {j = i} none ne ∙ e, refl)
]
step_at-empty stopped m i e = (e, refl)
step_at-empty fault m i e = (e, refl)

-- An empty slot stays empty until a multiple of the period.
stays_empty :
    (es : List Event) (m : Machine) (i : ℕ) (t : Task)
    → IsSafe m
    → get_elem? tasks i ≡ some t
    → get_elem? m.scheduler.queue i ≡ some none
    → none_due t m.scheduler.ticks es ≡ true
    → IsSafe (run es m) × (get_elem? (run es m).scheduler.queue i ≡ some none)
unfolding run step tick main_step scheduler_next
stays_empty [] m i t safe entry e quiet = (safe, e)
stays_empty (main ∷ es) m i t safe entry e quiet =
    let (e', same) = step_at-empty m.phase m i e in
    stays_empty es (step_at m.phase m) i t (step-IsSafe main m safe) entry e' (rw same quiet)
stays_empty (ticked ∷ es) m i t safe entry e quiet =
    elim (Bool-cases ((m.scheduler.ticks + 1) % 2 ^ 32 % t.period == 0)) [
      | inl due ↦ let never : false ≡ true = rw due at quiet in absurd (cc)
      | inr not_due ↦
          stays_empty es (tick m) i t (step-IsSafe ticked m safe) entry
            (scheduler_next-slots m.scheduler i t safe.slots entry ∙ rw not_due e)
            (rw not_due at quiet)
    ]

-- While a task runs, any number of ticks pass, whichever of them are at a multiple of its period, and
-- the task returns: then a release in this time is lost, that is, under every schedule that has no
-- further tick at a multiple of the period, the task's slot is empty and its function does not run.
pub run-lost :
    (n : ℕ) (es : List Event) (m : Machine) (i : ℕ) (t : Task)
    → IsSafe m
    → m.phase ≡ in_task i t
    → m.scheduler.ticks < 2 ^ 32
    → none_due t ((m.scheduler.ticks + n) % 2 ^ 32) es ≡ true
    → let m' = run es (run (replicate n ticked ++ (main ∷ [])) m) in
      (get_elem? m'.scheduler.queue i ≡ some none) × (m'.phase ≢ in_task i t)
run-lost n es m i t safe e h quiet =
    let m1 = run (replicate n ticked ++ (main ∷ [])) m in
    let (safe1, entry, empty, time) = returns_lem n m i t safe e h in
    let (safe2, empty2) = stays_empty es m1 i t safe1 entry empty (rw time quiet) in
    (
      empty2,
      λ running.
          some_none ((subst (λ (p : Phase). PhaseOk p (run es m1).scheduler) running safe2.place).0)
            empty2,
    )
  where
    some_none : {q : Option (Option Task)} → q ≡ some (some t) → q ≡ some none → ⊥
    some_none f g = cc
