-- ===== src/Scheduler/Visible.antt =====
-- The schedule in the trace stream: each call of a task stands behind its ownership message.
use mathlib.Core.List.{append-nil, map-append}
use mathlib.Core.Path.{subst}
use trace_fs.Base.{
  ℕ, zero, suc, ◌+◌, ◌<◌, ◌^◌, ◌≡◌, List, [], ◌∷◌, ◌++◌, map, Option, none, some, get_elem?, arith,
  ap, ◌∙◌, refl, Bool-cases, ltb, ◌==◌, inl, inr, sym,
}
use trace_fs.Ctrace.Emit.{CsrWrite, ownership_trace}
use trace_fs.Ctrace.Protocol.{Message, owner, idle, receive}
use trace_fs.Ctrace.Call.{Call, ownership, emit, emit_all, AllFit, meanings}
use trace_fs.Ctrace.Stream.{receive-emit_all}
use trace_fs.Ctrace.Told.{emit_all-append, AllFit-append}
use trace_fs.Scheduler.{Task, Scheduler, tasks, num_tasks, scheduler_next}
use trace_fs.Scheduler.Slots.{SlotsOk, SlotsOk-get, scheduler_next-full}
use trace_fs.Scheduler.Run.{
  Phase, at_while, at_slot, at_trace, at_entry, in_task, stopped, fault, Machine, Event, main,
  ticked, main_step, tick, step, step_at, test_slot, run, slot, enter_run,
}
use trace_fs.Scheduler.Safety.{IsSafe, PhaseOk, slot-full, step-IsSafe}

abbrev pub owned : Task → Call
owned t = ownership t.id

abbrev pub slot_list : Option Task → List Task
slot_list none = []
slot_list (some t) = t ∷ []

-- The tasks called so far, and the one that is announced and about to be called.
abbrev pub announced : Phase → Machine → List Task
announced (at_entry i) m = m.calls ++ slot_list (slot m.scheduler.queue i)
announced at_while m = m.calls
announced (at_slot i) m = m.calls
announced (at_trace i) m = m.calls
announced (in_task i t) m = m.calls
announced stopped m = m.calls
announced fault m = m.calls

-- The ids of the table count from 1.
pub id-tasks : (i : ℕ) (t : Task) → get_elem? tasks i ≡ some t → (i < 4) × (t.id ≡ i + 1)
id-tasks zero t e = ground arith
id-tasks (suc zero) t e = ground arith
id-tasks (suc (suc zero)) t e = ground arith
id-tasks (suc (suc (suc zero))) t e = ground arith
id-tasks (suc (suc (suc (suc i)))) t e = absurd (cc)

-- The writes of the loop are the ownership messages of these tasks.
record Shows (ts : List Task) (trace : List CsrWrite) : Type 0 where
  writes : trace ≡ emit_all (map owned ts)
  fit : AllFit (map owned ts)

Shows-snoc :
    (ts : List Task) (trace : List CsrWrite) (t : Task)
    → t.id < 2 ^ 16
    → Shows ts trace
    → Shows (ts ++ (t ∷ [])) (trace ++ ownership_trace t.id)
unfolding emit_all emit
Shows-snoc ts trace t h s = record {
  writes =
      ap (λ (w : List CsrWrite). w ++ ownership_trace t.id) s.writes
      ∙ ap (λ (w : List CsrWrite). emit_all (map owned ts) ++ w)
          (sym (append-nil (ownership_trace t.id)))
      ∙ sym (emit_all-append (map owned ts) (owned t ∷ []))
      ∙ ap emit_all (sym (map-append owned ts (t ∷ [])));
  fit = rw map-append (AllFit-append (map owned ts) (owned t ∷ []) s.fit (h, tt));
}

record IsVisible (m : Machine) : Type 0 where
  safe : IsSafe m
  shows : Shows (announced m.phase m) m.trace

announced-tick :
    (p : Phase) (m : Machine)
    → SlotsOk tasks m.scheduler.queue
    → PhaseOk p m.scheduler
    → announced p (tick m) ≡ announced p m
unfolding tick
announced-tick (at_entry i) m ok h = rw (
  slot-full m.scheduler.queue i h.0 h.1,
  slot-full (scheduler_next m.scheduler).queue i h.0 (scheduler_next-full m.scheduler i h.0 ok h.1),
)
announced-tick at_while m ok h = refl
announced-tick (at_slot i) m ok h = refl
announced-tick (at_trace i) m ok h = refl
announced-tick (in_task i t) m ok h = refl
announced-tick stopped m ok h = refl
announced-tick fault m ok h = refl

step_at-Shows :
    (p : Phase) (m : Machine)
    → SlotsOk tasks m.scheduler.queue
    → PhaseOk p m.scheduler
    → m.phase ≡ p
    → Shows (announced p m) m.trace
    → Shows (announced (step_at p m).phase (step_at p m)) (step_at p m).trace
step_at-Shows at_while m ok h e s = elim (Bool-cases (m.scheduler.enabled == 0)) [
  | inl off ↦ rw off s
  | inr on ↦ rw on s
]
step_at-Shows (at_slot i) m ok h e s = elim (Bool-cases (ltb i num_tasks)) [
  | inl below ↦ rw below (after_test (slot m.scheduler.queue i))
  | inr above ↦ rw above s
]
  where
    after_test :
        (o : Option Task)
        → Shows (announced (test_slot i o) (record m { phase = test_slot i o })) m.trace
    after_test none = s
    after_test (some t) = s
step_at-Shows (at_trace i) m ok h e s = rw (slot-full m.scheduler.queue i h.0 h.1) (
    rw (slot-full m.scheduler.queue i h.0 h.1) (
      Shows-snoc m.calls m.trace h.0
        (omega (arith, id-tasks i h.0 (SlotsOk-get tasks m.scheduler.queue i h.0 ok h.1))) s))
step_at-Shows (at_entry i) m ok h e s =
    rw (slot-full m.scheduler.queue i h.0 h.1) (rw (slot-full m.scheduler.queue i h.0 h.1) at s)
step_at-Shows (in_task i t) m ok h e s = s
step_at-Shows stopped m ok h e s = rw e s
step_at-Shows fault m ok h e s = absurd h

step-IsVisible : (e : Event) (m : Machine) → IsVisible m → IsVisible (step e m)
unfolding step main_step tick
step-IsVisible main m v = record {
  safe = step-IsSafe main m v.safe;
  shows = step_at-Shows m.phase m v.safe.slots v.safe.place refl v.shows;
}
step-IsVisible ticked m v = record {
  safe = step-IsSafe ticked m v.safe;
  shows =
      subst (λ (ts : List Task). Shows ts m.trace)
        (sym (announced-tick m.phase m v.safe.slots v.safe.place)) v.shows;
}

run-IsVisible : (es : List Event) (m : Machine) → IsVisible m → IsVisible (run es m)
unfolding run
run-IsVisible [] m v = v
run-IsVisible (e ∷ es) m v = run-IsVisible es (step e m) (step-IsVisible e m v)

abbrev pub owner_of : Task → Message
owner_of t = owner t.id

meanings-owned : (ts : List Task) → meanings (map owned ts) ≡ map owner_of ts
meanings-owned [] = refl
meanings-owned (t ∷ ts) = ap (λ (ms : List Message). owner t.id ∷ ms) (meanings-owned ts)

-- Of the writes that the loop itself makes, without those of the tasks' functions: from a well-formed
-- queue, under every schedule of steps and interrupts, a receiver reads exactly the ids of the tasks
-- called so far, in order, and behind them the id of the task that is about to be called, if any.
pub run-trace :
    (es : List Event) (s : Scheduler)
    → SlotsOk tasks s.queue
    → let m = run es (enter_run s) in receive idle m.trace ≡ map owner_of (announced m.phase m)
run-trace es s ok =
    let v = run-IsVisible es (enter_run s) (starts s ok) in
    ap (receive idle) v.shows.writes ∙ receive-emit_all _ v.shows.fit ∙ meanings-owned _
  where
    starts : (s : Scheduler) → SlotsOk tasks s.queue → IsVisible (enter_run s)
    starts s ok = record {
      safe = record { slots = ok; place = tt };
      shows = record { writes = unfold emit_all in refl; fit = tt };
    }
