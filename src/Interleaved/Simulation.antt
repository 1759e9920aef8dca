-- ===== src/Interleaved/Simulation.antt =====
-- The firmware with traps inside the tasks' functions against the machine of the main loop, in which
-- a task's function is one step.
use trace_fs.Base.{
  ℕ, ◌+◌, ◌≡◌, inl, inr, refl, sym, ap, ◌∙◌, List, [], ◌∷◌, ◌++◌, Option, none, some, some_inj,
}
use trace_fs.Scheduler.{Task, scheduler_next}
use trace_fs.Scheduler.Run.{
  Phase, at_while, at_slot, at_trace, at_entry, in_task, stopped, fault, slot, Machine, enter,
  enter_slot, main_step, step_at, tick, run,
}
use trace_fs.Trap.Dispatch.{handle_trap-scheduler}
use trace_fs.Tasks.{Platform}
use trace_fs.Tasks.Accesses.{Access, Frame, exec}
use trace_fs.System.{System, Happening, main_goes, trapped, trap, main_at}
use trace_fs.System.Agrees.{Agrees, main_at-Agrees, step_at-calls}
use trace_fs.System.Mirrors.{Mirrors, still-Mirrors, tick-Mirrors, main-Mirrors, Mirrors-trans}
use trace_fs.Interleaved.Effect.{effects, effects-accesses, effects-next, exec-Does}
use trace_fs.Interleaved.{
  Interleaved, call_slot, in_loop, resume, outside, goes_on, called_at, loop_step_at, interleave,
  run_interleaved, calls_of, loop_step_of, all_calls, loop_steps,
}

module _ (platform : Platform) where
  open platform use {bus}

  -- The machine is in the place, and has the scheduler's state that the running function will have
  -- made of the firmware's.
  pub record Matches (s : Interleaved platform) (m : Machine) : Type 0 where
    pub scheduler : m.scheduler ≡ effects s.left s.system.world.scheduler
    pub phase : m.phase ≡ s.system.phase

  call_slot-Matches :
      (i : ℕ) (o : Option Task) (s : Interleaved platform) (m : Machine)
      → m.scheduler ≡ s.system.world.scheduler
      → s.left ≡ []
      → Matches (call_slot platform i o s) (enter_slot i o m)
  call_slot-Matches i none s m e none_left = record { scheduler = rw none_left e; phase = refl }
  call_slot-Matches i (some t) s m e none_left = record {
    scheduler = ap (enter t.entry) e ∙ sym (effects-accesses t.entry s.system.world.scheduler);
    phase = refl;
  }

  in_loop-Matches :
      (p : Phase) (s s' : Interleaved platform) (m : Machine)
      → Agrees platform s.system m
      → s.left ≡ []
      → in_loop platform (main_at platform p s.system) s ≡ some s'
      → Matches s' (step_at p m)
  in_loop-Matches p s s' m a none_left h = by_result (main_at platform p s.system) refl h
    where
      by_result :
          (r : Option (System platform))
          → main_at platform p s.system ≡ r
          → in_loop platform r s ≡ some s'
          → Matches s' (step_at p m)
      by_result none e h = absurd (cc)
      by_result (some r) e h =
          let a' = main_at-Agrees platform p s.system r m a e in
          rw (some_inj s' _ (sym h), none_left)
            (record { scheduler = a'.scheduler; phase = a'.phase })

  outside-Matches :
      (p : Phase) (s s' : Interleaved platform) (m : Machine)
      → Agrees platform s.system m
      → s.left ≡ []
      → s.system.phase ≡ p
      → outside platform p s ≡ some s'
      → Matches s' (step_at p m)
  outside-Matches at_while s s' m a e at_p h = in_loop-Matches at_while s s' m a e h
  outside-Matches (at_slot i) s s' m a e at_p h = in_loop-Matches (at_slot i) s s' m a e h
  outside-Matches (at_trace i) s s' m a e at_p h = in_loop-Matches (at_trace i) s s' m a e h
  outside-Matches (at_entry i) s s' m a e at_p h =
      rw (some_inj s' _ (sym h), a.scheduler)
        (call_slot-Matches i (slot s.system.world.scheduler.queue i) s
          (record m { scheduler = s.system.world.scheduler }) refl e)
  outside-Matches (in_task i t) s s' m a e at_p h = in_loop-Matches (in_task i t) s s' m a e h
  outside-Matches stopped s s' m a e at_p h = in_loop-Matches stopped s s' m a e h
  outside-Matches fault s s' m a e at_p h = in_loop-Matches fault s s' m a e h

  resume-Matches :
      (a : Access) (left : List Access) (s s' : Interleaved platform) (m : Machine)
      → s.left ≡ a ∷ left
      → Matches s m
      → goes_on platform (a ∷ left) s ≡ some s'
      → Matches s' m
  resume-Matches a left s s' m e k h =
      by_result (exec platform a (record { local = s.local; world = s.system.world })) refl h
    where
      by_result :
          (r : Option (Frame platform))
          → exec platform a (record { local = s.local; world = s.system.world }) ≡ r
          → resume platform left r s ≡ some s'
          → Matches s' m
      by_result none x h = absurd (cc)
      by_result (some f) x h = rw (some_inj s' _ (sym h)) (record {
        scheduler = k.scheduler ∙ rw e (ap (effects left) (sym (exec-Does platform a _ f x).0));
        phase = k.phase;
      })

  goes_on-Mirrors :
      (left : List Access) (s s' : Interleaved platform) (m : Machine)
      → s.left ≡ left
      → Matches s m
      → goes_on platform left s ≡ some s'
      → Mirrors (Matches s') (called_at platform left s) (loop_step_at platform left) m
  unfolding main_step
  goes_on-Mirrors [] s s' m e k h =
      let same = rw e at k.scheduler in
      main-Mirrors _ _ m
        (rw k.phase (
          outside-Matches s.system.phase s s' (record m { phase = s.system.phase })
            (record { scheduler = same; phase = refl }) e refl h))
        (step_at-calls platform m.phase m ∙ rw (k.phase, same) refl)
  goes_on-Mirrors (a ∷ left) s s' m e k h = still-Mirrors _ m (resume-Matches a left s s' m e k h)

  trap-Matches :
      (mcause mepc : ℕ) (arrive : bus.Device → bus.Device) (s : Interleaved platform) (m : Machine)
      → Matches s m
      → Mirrors (Matches (record s { system = trap platform mcause mepc arrive s.system })) [] 0 m
  unfolding trap
  trap-Matches mcause mepc arrive s m k = elim (handle_trap-scheduler bus mcause mepc _) [
    | inl same ↦
        still-Mirrors _ m
          (record { scheduler = k.scheduler ∙ ap (effects s.left) (sym same); phase = k.phase })
    | inr next ↦ tick-Mirrors _ m (
        unfold tick in
        record {
          scheduler =
              ap scheduler_next k.scheduler
              ∙ sym (effects-next s.left s.system.world.scheduler)
              ∙ ap (effects s.left) (sym next);
          phase = k.phase;
        })
  ]

  pub interleave-Mirrors :
      (e : Happening platform) (s s' : Interleaved platform) (m : Machine)
      → Matches s m
      → interleave platform e s ≡ some s'
      → Mirrors (Matches s') (calls_of platform e s) (loop_step_of platform e s) m
  unfolding interleave
  interleave-Mirrors main_goes s s' m k h = goes_on-Mirrors s.left s s' m refl k h
  interleave-Mirrors (trapped mcause mepc arrive) s s' m k h =
      rw (some_inj s' _ (sym h)) (trap-Matches mcause mepc arrive s m k)

  pub run_interleaved-Mirrors :
      (hs : List (Happening platform)) (s s' : Interleaved platform) (m : Machine)
      → Matches s m
      → run_interleaved platform hs s ≡ some s'
      → Mirrors (Matches s') (all_calls platform hs s) (loop_steps platform hs s) m
  unfolding run_interleaved all_calls loop_steps
  run_interleaved-Mirrors [] s s' m k h =
      still-Mirrors (Matches s') m (rw (some_inj s' _ (sym h)) k)
  run_interleaved-Mirrors (e ∷ hs) s s' m k h =
      by_result (λ s1 m1 k1 h1. run_interleaved-Mirrors hs s1 s' m1 k1 h1) (interleave platform e s)
        refl h
    where
      by_result :
          ((s1 : Interleaved platform) (m1 : Machine)
            → Matches s1 m1
            → run_interleaved platform hs s1 ≡ some s'
            → Mirrors (Matches s') (all_calls platform hs s1) (loop_steps platform hs s1) m1)
          → (r : Option (Interleaved platform)) → interleave platform e s ≡ r
          → elim r [ none ↦ none | some s1 ↦ run_interleaved platform hs s1 ] ≡ some s'
          → Mirrors
              (Matches s')
              (calls_of platform e s ++ elim r [ none ↦ [] | some s1 ↦ all_calls platform hs s1 ])
              (loop_step_of platform e s
                + elim r [ none ↦ 0 | some s1 ↦ loop_steps platform hs s1 ])
              m
      by_result further none eq h = absurd (cc)
      by_result further (some s1) eq h =
          let first = interleave-Mirrors e s s1 m k eq in
          let rest = further s1 (run first.schedule m) first.agrees h in
          Mirrors-trans _ _ _ _ _ _ m first rest
