-- ===== src/System/Agrees.antt =====
-- A step of the whole firmware against a step of the machine of the main loop.
use mathlib.Core.List.{append-nil}
use trace_fs.Base.{
  some_inj, ℕ, ◌≡◌, inl, inr, refl, sym, ap, ◌∙◌, ◌++◌, Option, none, some, ltb, ◌==◌, Bool-cases,
  Option-cases,
}
use trace_fs.Scheduler.{Task, num_tasks}
use trace_fs.Scheduler.Run.{
  Phase, at_while, at_slot, at_trace, at_entry, in_task, stopped, fault, Machine, enter, step_at,
  slot, enter_slot, clear_slot,
}
use trace_fs.Tasks.{Platform, World, call}
use trace_fs.Tasks.Effect.{call-enter}
use trace_fs.System.Told.{about}
use trace_fs.System.{System, enter_at, main_at}

module _ (platform : Platform) where
  open platform use {bus}

  -- The machine is in the place and has the scheduler's state of the firmware.
  pub record Agrees (s : System platform) (m : Machine) : Type 0 where
    pub scheduler : m.scheduler ≡ s.world.scheduler
    pub phase : m.phase ≡ s.phase

  enter_at-Agrees :
      (i : ℕ) (o : Option Task) (s s' : System platform) (m : Machine)
      → m.scheduler ≡ s.world.scheduler
      → enter_at platform i o s ≡ some s'
      → Agrees s' (enter_slot i o m)
  enter_at-Agrees i none s s' m a h =
      rw (some_inj s' _ (sym h)) (record { scheduler = a; phase = refl })
  enter_at-Agrees i (some t) s s' m a h = by_result (call platform t.entry s.world) refl h
    where
      by_result :
          (r : Option (World platform))
          → call platform t.entry s.world ≡ r
          → elim r [ none ↦ none | some w ↦ some (record s { phase = in_task i t; world = w }) ]
            ≡ some s'
          → Agrees s' (enter_slot i (some t) m)
      by_result none e h = absurd (cc)
      by_result (some w) e h = rw (some_inj s' _ (sym h)) (record {
        scheduler = ap (enter t.entry) a ∙ sym (call-enter platform t.entry s.world w e).0;
        phase = refl;
      })

  pub main_at-Agrees :
      (p : Phase) (s s' : System platform) (m : Machine)
      → Agrees s m
      → main_at platform p s ≡ some s'
      → Agrees s' (step_at p m)
  main_at-Agrees at_while s s' m a h =
      rw (some_inj s' _ (sym h), a.scheduler)
        (elim (Bool-cases (s.world.scheduler.enabled == 0)) [
          | inl off ↦ rw off (record { scheduler = refl; phase = refl })
          | inr on ↦ rw on (record { scheduler = refl; phase = refl })
        ])
  main_at-Agrees (at_slot i) s s' m a h =
      rw (some_inj s' _ (sym h), a.scheduler)
        (elim (Bool-cases (ltb i num_tasks)) [
          | inl below ↦ rw below (record { scheduler = refl; phase = refl })
          | inr above ↦ rw above (record { scheduler = refl; phase = refl })
        ])
  main_at-Agrees (at_trace i) s s' m a h =
      rw (some_inj s' _ (sym h), a.scheduler)
        (elim (Option-cases (slot s.world.scheduler.queue i)) [
          | inl e ↦ rw e (record { scheduler = refl; phase = refl })
          | inr (t, e) ↦ rw e (record { scheduler = refl; phase = refl })
        ])
  main_at-Agrees (at_entry i) s s' m a h = rw a.scheduler (
      enter_at-Agrees i (slot s.world.scheduler.queue i) s s'
        (record m { scheduler = s.world.scheduler }) refl h)
  main_at-Agrees (in_task i t) s s' m a h =
      rw (some_inj s' _ (sym h))
        (record { scheduler = ap (clear_slot i) a.scheduler; phase = refl })
  main_at-Agrees stopped s s' m a h = rw (some_inj s' _ (sym h)) a
  main_at-Agrees fault s s' m a h = rw (some_inj s' _ (sym h)) a

  pub step_at-calls :
      (p : Phase) (m : Machine) → (step_at p m).calls ≡ m.calls ++ about p m.scheduler.queue
  step_at-calls at_while m = elim (Bool-cases (m.scheduler.enabled == 0)) [
    | inl off ↦ rw off (sym (append-nil m.calls))
    | inr on ↦ rw on (sym (append-nil m.calls))
  ]
  step_at-calls (at_slot i) m = elim (Bool-cases (ltb i num_tasks)) [
    | inl below ↦ rw below (sym (append-nil m.calls))
    | inr above ↦ rw above (sym (append-nil m.calls))
  ]
  step_at-calls (at_trace i) m = elim (Option-cases (slot m.scheduler.queue i)) [
    | inl e ↦ rw e (sym (append-nil m.calls))
    | inr (t, e) ↦ rw e (sym (append-nil m.calls))
  ]
  step_at-calls (at_entry i) m = elim (Option-cases (slot m.scheduler.queue i)) [
    | inl e ↦ rw e (sym (append-nil m.calls))
    | inr (t, e) ↦ rw e refl
  ]
  step_at-calls (in_task i t) m = sym (append-nil m.calls)
  step_at-calls stopped m = sym (append-nil m.calls)
  step_at-calls fault m = sym (append-nil m.calls)
