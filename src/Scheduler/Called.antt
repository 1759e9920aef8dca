-- ===== src/Scheduler/Called.antt =====
-- A task whose slot is full is called, whatever interrupts come, once the loop is before its slot.
use mathlib.Core.List.{append-nil, append_assoc}
use native.Mathlib.Decide.{ℕ_discrete}
use trace_fs.Base.{
  ℕ, ◌+◌, ◌-◌, ◌*◌, ◌<◌, ◌≤◌, ◌≡◌, ◌≢◌, ◌⊎◌, inl, inr, List, [], ◌∷◌, ◌++◌, none, some, get_elem?,
  ltb, lt→ltb, ◌==◌, arith, refl, sym, ap, ◌∙◌, Bool-cases, Option-cases, get_elem?-set_ne, true,
}
use trace_fs.Scheduler.{Task, tasks, num_tasks, scheduler_next}
use trace_fs.Scheduler.Slots.{SlotsOk, scheduler_next-full}
use trace_fs.Scheduler.Run.{
  Phase, at_while, at_slot, at_trace, at_entry, in_task, stopped, fault, Machine, Event, main,
  ticked, main_step, tick, step, step_at, test_slot, run, slot,
}
use trace_fs.Scheduler.Safety.{IsSafe, PhaseOk, slot-full, step-IsSafe, queue-enter}
use trace_fs.Scheduler.Stop.{main_steps, full-lt}

-- The main program is before the call from slot i in this round, or about to begin a round.
abbrev pub Ahead : ℕ → Phase → ℕ → Type 0
Ahead i at_while enabled = enabled ≢ 0
Ahead i (at_slot j) enabled = j ≤ i
Ahead i (at_trace j) enabled = j ≤ i
Ahead i (at_entry j) enabled = j ≤ i
Ahead i (in_task j t) enabled = j < i
Ahead i stopped enabled = ⊥
Ahead i fault enabled = ⊥

-- How many steps of the main program the call from slot i is away at most.
abbrev pub distance : ℕ → Phase → ℕ
distance i at_while = 4 * i + 4
distance i (at_slot j) = 4 * (i - j) + 3
distance i (at_trace j) = 4 * (i - j) + 2
distance i (at_entry j) = 4 * (i - j) + 1
distance i (in_task j t) = 4 * (i - j)
distance i stopped = 0
distance i fault = 0

-- The later machine has called some more tasks.
abbrev Extends : Machine → Machine → Type 0
Extends m m' = (ts : List Task) × (m'.calls ≡ m.calls ++ ts)

-- It has called t among them.
abbrev pub Called : Task → Machine → Machine → Type 0
Called t m m' =
    (before : List Task) × (after : List Task) × (m'.calls ≡ m.calls ++ (before ++ (t ∷ after)))

nothing_called : (m m' : Machine) → m'.calls ≡ m.calls → Extends m m'
nothing_called m m' e = ([], e ∙ sym (append-nil m.calls))

Extends-trans : (m m' m'' : Machine) → Extends m m' → Extends m' m'' → Extends m m''
Extends-trans m m' m'' (ts, e) (us, f) =
    (ts ++ us, f ∙ ap (λ (xs : List Task). xs ++ us) e ∙ append_assoc m.calls ts us)

main_step-Extends : (p : Phase) (m : Machine) → Extends m (step_at p m)
main_step-Extends at_while m = elim (Bool-cases (m.scheduler.enabled == 0)) [
  | inl off ↦ rw off (nothing_called m m refl)
  | inr on ↦ rw on (nothing_called m m refl)
]
main_step-Extends (at_slot i) m = elim (Bool-cases (ltb i num_tasks)) [
  | inl below ↦ rw below (nothing_called m m refl)
  | inr above ↦ rw above (nothing_called m m refl)
]
main_step-Extends (at_trace i) m = elim (Option-cases (slot m.scheduler.queue i)) [
  | inl e ↦ rw e (nothing_called m m refl)
  | inr (t, e) ↦ rw e (nothing_called m m refl)
]
main_step-Extends (at_entry i) m = elim (Option-cases (slot m.scheduler.queue i)) [
  | inl e ↦ rw e (nothing_called m m refl)
  | inr (t, e) ↦ rw e (t ∷ [], refl)
]
main_step-Extends (in_task i t) m = nothing_called m m refl
main_step-Extends stopped m = nothing_called m m refl
main_step-Extends fault m = nothing_called m m refl

step-Extends : (e : Event) (m : Machine) → Extends m (step e m)
unfolding step main_step tick
step-Extends main m = main_step-Extends m.phase m
step-Extends ticked m = nothing_called m m refl

run-Extends : (es : List Event) (m : Machine) → Extends m (run es m)
unfolding run
run-Extends [] m = nothing_called m m refl
run-Extends (e ∷ es) m =
    Extends-trans m (step e m) (run es (step e m)) (step-Extends e m) (run-Extends es (step e m))

-- The call of t from slot i has come nearer.
record IsNearer (i : ℕ) (t : Task) (p : Phase) (m' : Machine) : Type 0 where
  near : distance i m'.phase < distance i p
  ahead : Ahead i m'.phase m'.scheduler.enabled
  full : get_elem? m'.scheduler.queue i ≡ some (some t)

-- A step of the main program brings the call of t nearer or is that call.
Advances : ℕ → Task → Phase → Machine → Machine → Type 0
Advances i t p m m' = IsNearer i t p m' ⊎ (m'.calls ≡ m.calls ++ (t ∷ []))

IsNearer-test :
    (i j : ℕ) (t : Task) (m : Machine)
    → get_elem? m.scheduler.queue i ≡ some (some t)
    → j ≤ i
    → IsNearer i t (at_slot j) (record m { phase = test_slot j (slot m.scheduler.queue j) })
IsNearer-test i j t m h le = elim (ℕ_discrete j i) [
  | yes e ↦
      rw (e, slot-full m.scheduler.queue i t h)
        (record { near = omega arith; ahead = omega arith; full = h })
  | no ne ↦ elim (Option-cases (slot m.scheduler.queue j)) [
    | inl e ↦ rw e (record { near = omega arith; ahead = omega arith; full = h })
    | inr (t', e) ↦ rw e (record { near = omega arith; ahead = omega arith; full = h })
  ]
]

step_at-Advances :
    (i : ℕ) (t : Task) (p : Phase) (m : Machine)
    → SlotsOk tasks m.scheduler.queue
    → PhaseOk p m.scheduler
    → get_elem? m.scheduler.queue i ≡ some (some t)
    → Ahead i p m.scheduler.enabled
    → Advances i t p m (step_at p m)
unfolding Advances
step_at-Advances i t at_while m ok h full a = elim (Bool-cases (m.scheduler.enabled == 0)) [
  | inl off ↦ absurd (ground (arith, a))
  | inr on ↦ rw on (inl (record { near = omega arith; ahead = omega arith; full = full }))
]
step_at-Advances i t (at_slot j) m ok h full a =
    let below : ltb j num_tasks ≡ true =
      lt→ltb j 4 (omega (arith, full-lt i t m.scheduler ok full)) in
    rw below (inl (IsNearer-test i j t m full a))
step_at-Advances i t (at_trace j) m ok h full a =
    rw (slot-full m.scheduler.queue j h.0 h.1)
      (inl (record { near = omega arith; ahead = a; full = full }))
step_at-Advances i t (at_entry j) m ok h full a = elim (ℕ_discrete j i) [
  | yes e ↦ rw (e, slot-full m.scheduler.queue i t full) (inr refl)
  | no ne ↦ rw (slot-full m.scheduler.queue j h.0 h.1) (
      inl (record {
        near = omega arith;
        ahead = omega arith;
        full = rw (queue-enter h.0.entry m.scheduler) full;
      }))
]
step_at-Advances i t (in_task j t') m ok h full a = inl (record {
  near = omega arith;
  ahead = omega arith;
  full = get_elem?-set_ne m.scheduler.queue {i = j} {j = i} none (omega arith) ∙ full;
})
step_at-Advances i t stopped m ok h full a = absurd a
step_at-Advances i t fault m ok h full a = absurd a

distance_pos : (i : ℕ) (p : Phase) (enabled : ℕ) → Ahead i p enabled → 0 < distance i p
distance_pos i at_while enabled a = omega arith
distance_pos i (at_slot j) enabled a = omega arith
distance_pos i (at_trace j) enabled a = omega arith
distance_pos i (at_entry j) enabled a = omega arith
distance_pos i (in_task j t) enabled a = omega arith
distance_pos i stopped enabled a = absurd a
distance_pos i fault enabled a = absurd a

Called-earlier : (t : Task) (m m' m'' : Machine) → Extends m m' → Called t m' m'' → Called t m m''
Called-earlier t m m' m'' (ts, e) (before, after, f) = (
  ts ++ before,
  after,
  f
      ∙ ap (λ (xs : List Task). xs ++ (before ++ (t ∷ after))) e
      ∙ append_assoc m.calls ts (before ++ (t ∷ after))
      ∙ ap (λ (xs : List Task). m.calls ++ xs) (sym (append_assoc ts before (t ∷ after))),
)

Called-later :
    (t : Task) (m m' m'' : Machine)
    → m'.calls ≡ m.calls ++ (t ∷ [])
    → Extends m' m''
    → Called t m m''
Called-later t m m' m'' e (ts, f) =
    ([], ts, f ∙ ap (λ (xs : List Task). xs ++ ts) e ∙ append_assoc m.calls (t ∷ []) ts)

-- From any safe state in which slot i holds t and the main program is before the call from slot i
-- in its round, or is at the test of `while` with the scheduler enabled, every schedule with as many
-- steps of the main program as the distance to that call, and any interrupts between them, calls t.
pub run-Called :
    (es : List Event) (m : Machine) (i : ℕ) (t : Task)
    → IsSafe m
    → get_elem? m.scheduler.queue i ≡ some (some t)
    → Ahead i m.phase m.scheduler.enabled
    → distance i m.phase ≤ main_steps es
    → Called t m (run es m)
unfolding run step main_step tick scheduler_next Advances
run-Called [] m i t safe full a h =
    absurd (omega (arith, distance_pos i m.phase m.scheduler.enabled a))
run-Called (main ∷ es) m i t safe full a h =
    elim (step_at-Advances i t m.phase m safe.slots safe.place full a) [
      | inl s ↦ Called-earlier t m (step main m) (run es (step main m)) (step-Extends main m) (
          run-Called es (step main m) i t (step-IsSafe main m safe) s.full s.ahead
            (omega (arith, s.near)))
      | inr e ↦
          Called-later t m (step main m) (run es (step main m)) e (run-Extends es (step main m))
    ]
run-Called (ticked ∷ es) m i t safe full a h =
    run-Called es (step ticked m) i t (step-IsSafe ticked m safe)
      (scheduler_next-full m.scheduler i t safe.slots full) a h
