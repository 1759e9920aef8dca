-- ===== src/System/Defined.antt =====
-- Which steps of the whole firmware have a defined result.
use trace_fs.Base.{
  is_some, ℕ, ◌≡◌, refl, ◌∙◌, Option, none, some, Bool, true, false, not, ◌&&◌, if◌then◌else◌,
  arith,
}
use trace_fs.Scheduler.{Task}
use trace_fs.Scheduler.Run.{
  Phase, at_while, at_slot, at_trace, at_entry, in_task, stopped, fault, slot,
}
use trace_fs.Asw.Scenarios.Defined.{is_good_index}
use trace_fs.Tasks.{Platform, World, call}
use trace_fs.Tasks.Effect.{is_100ms, call_defined}
use trace_fs.System.{System, Happening, main_goes, trapped, enter_at, main_at, happen}

module _ (platform : Platform) where
  -- The task of 100 ms is about to be called where it reads the table with a bad index.
  abbrev pub is_bad_call : Option Task → System platform → Bool
  is_bad_call none s = false
  is_bad_call (some t) s = is_100ms t.entry && not (is_good_index s.world.scenario.vars.x)

  abbrev pub is_bad_at : Phase → System platform → Bool
  is_bad_at (at_entry i) s = is_bad_call (slot s.world.scheduler.queue i) s
  is_bad_at _ s = false

  abbrev pub is_bad : Happening platform → System platform → Bool
  is_bad main_goes s = is_bad_at s.phase s
  is_bad (trapped mcause mepc arrive) s = false

  is_some-enter_at :
      (i : ℕ) (o : Option Task) (s : System platform)
      → is_some (enter_at platform i o s) ≡ not (is_bad_call o s)
  is_some-enter_at i none s = refl
  is_some-enter_at i (some t) s =
      kept (call platform t.entry s.world)
      ∙ call_defined platform t.entry s.world
      ∙ by_entry (is_100ms t.entry) (is_good_index s.world.scenario.vars.x)
    where
      kept :
          (r : Option (World platform))
          → is_some
              (elim r [ none ↦ none | some w ↦ some (record s { phase = in_task i t; world = w }) ])
            ≡ is_some r
      kept none = refl
      kept (some w) = refl

      by_entry : (e good : Bool) → (if e then good else true) ≡ not (e && not good)
      by_entry e good = ground arith

  is_some-main_at :
      (p : Phase) (s : System platform) → is_some (main_at platform p s) ≡ not (is_bad_at p s)
  is_some-main_at at_while s = refl
  is_some-main_at (at_slot i) s = refl
  is_some-main_at (at_trace i) s = refl
  is_some-main_at (at_entry i) s = is_some-enter_at i (slot s.world.scheduler.queue i) s
  is_some-main_at (in_task i t) s = refl
  is_some-main_at stopped s = refl
  is_some-main_at fault s = refl

  -- For every state, every trap and every step of the main program has a defined result, except
  -- exactly for a call of the task of 100 ms where the index that it reads the table with is bad.
  pub happen_defined :
      (h : Happening platform) (s : System platform)
      → is_some (happen platform h s) ≡ not (is_bad h s)
  unfolding happen
  happen_defined main_goes s = is_some-main_at s.phase s
  happen_defined (trapped mcause mepc arrive) s = refl
