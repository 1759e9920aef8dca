-- ===== src/System/Simulation.antt =====
-- The whole firmware behaves as the machine of the main loop under some schedule.

use trace_fs.Base.{
  ◌+◌, arith, some_inj, ◌≡◌, ◌≢◌, ◌⊎◌, inl, inr, refl, sym, ap, ◌∙◌, List, [], ◌∷◌, ◌++◌, Option,
  none, some,
}
use trace_fs.Scheduler.{Scheduler, tasks, scheduler_next}
use trace_fs.Scheduler.Slots.{SlotsOk}
use trace_fs.Scheduler.Run.{at_while, fault, Machine, Event, main_step, tick, step, run, enter_run}
use trace_fs.Scheduler.Safety.{run-no_fault}
use trace_fs.Trap.{Firmware, handle_trap}
use trace_fs.Tasks.{Platform}
use trace_fs.System.Told.{entered, called, main_steps_of}
use trace_fs.System.{System, Happening, main_goes, trapped, firmware_of, trap, happen, run_system}
use trace_fs.System.Mirrors.{Mirrors, still-Mirrors, tick-Mirrors, main-Mirrors, Mirrors-trans}
use trace_fs.System.Agrees.{Agrees, main_at-Agrees, step_at-calls}
use trace_fs.Trap.Dispatch.{handle_trap-scheduler}

module _ (platform : Platform) where
  open platform use {bus}

  pub main_steps-cons :
      (e : Happening platform) (hs : List (Happening platform))
      → main_steps_of platform (e ∷ hs)
        ≡ main_steps_of platform (e ∷ []) + main_steps_of platform hs
  main_steps-cons main_goes hs = omega arith
  main_steps-cons (trapped mcause mepc arrive) hs = omega arith

  pub happen-Mirrors :
      (e : Happening platform) (s s' : System platform) (m : Machine)
      → Agrees platform s m
      → happen platform e s ≡ some s'
      → Mirrors (Agrees platform s') (entered platform e s) (main_steps_of platform (e ∷ [])) m
  unfolding happen trap run step main_step tick
  happen-Mirrors main_goes s s' m a h =
      main-Mirrors _ _ m
        (rw a.phase (
          main_at-Agrees platform s.phase s s' (record m { phase = s.phase })
            (record { scheduler = a.scheduler; phase = refl }) h))
        (step_at-calls platform m.phase m ∙ rw (a.phase, a.scheduler) refl)
  happen-Mirrors (trapped mcause mepc arrive) s s' m a h =
      rw (some_inj s' _ (sym h)) (by_timer (handle_trap-scheduler bus mcause mepc _))
    where
      entry : Firmware bus
      entry = firmware_of platform s

      t : Scheduler
      t = (handle_trap bus mcause mepc (record entry { device = arrive entry.device })).1.scheduler

      by_timer :
          (t ≡ s.world.scheduler) ⊎ (t ≡ scheduler_next s.world.scheduler)
          → Mirrors (Agrees platform (trap platform mcause mepc arrive s)) [] 0 m
      by_timer (inl e) =
          still-Mirrors _ m (record { scheduler = a.scheduler ∙ sym e; phase = a.phase })
      by_timer (inr e) =
          tick-Mirrors _ m
            (record { scheduler = ap scheduler_next a.scheduler ∙ sym e; phase = a.phase })

  pub run_system-Mirrors :
      (hs : List (Happening platform)) (s s' : System platform) (m : Machine)
      → Agrees platform s m
      → run_system platform hs s ≡ some s'
      → Mirrors (Agrees platform s') (called platform hs s) (main_steps_of platform hs) m
  unfolding run_system called
  run_system-Mirrors [] s s' m a h =
      still-Mirrors (Agrees platform s') m (rw (some_inj s' _ (sym h)) a)
  run_system-Mirrors (e ∷ hs) s s' m a h =
      by_result (λ s1 m1 a1 h1. run_system-Mirrors hs s1 s' m1 a1 h1) (happen platform e s) refl h
    where
      by_result :
          ((s1 : System platform) (m1 : Machine)
            → Agrees platform s1 m1
            → run_system platform hs s1 ≡ some s'
            → Mirrors (Agrees platform s') (called platform hs s1) (main_steps_of platform hs) m1)
          → (r : Option (System platform)) → happen platform e s ≡ r
          → elim r [ none ↦ none | some s1 ↦ run_system platform hs s1 ] ≡ some s'
          → Mirrors
              (Agrees platform s')
              (entered platform e s ++ elim r [ none ↦ [] | some s1 ↦ called platform hs s1 ])
              (main_steps_of platform (e ∷ hs))
              m
      by_result further none eq h = absurd (cc)
      by_result further (some s1) eq h =
          let first = happen-Mirrors e s s1 m a eq in
          let rest = further s1 (run first.schedule m) first.agrees h in
          rw (main_steps-cons e hs) (Mirrors-trans _ _ _ _ _ _ m first rest)

  -- From the entry of the main loop with a well-formed queue, and for any traps, arrivals at the
  -- peripherals and steps of the main program: where every function of a task that is called has a
  -- defined result, the firmware is in the place and has the scheduler's state of the machine under
  -- some schedule; so it has not read through a null pointer, and the queue is well-formed.
  pub run_system_sound :
      (hs : List (Happening platform)) (s s' : System platform)
      → s.phase ≡ at_while
      → SlotsOk tasks s.world.scheduler.queue
      → run_system platform hs s ≡ some s'
      → (es : List Event) × (let m = run es (enter_run s.world.scheduler) in
          (s'.world.scheduler ≡ m.scheduler)
          × (s'.phase ≡ m.phase)
          × (s'.phase ≢ fault)
          × SlotsOk tasks s'.world.scheduler.queue)
  run_system_sound hs s s' start ok h =
      let r =
        run_system-Mirrors hs s s' (enter_run s.world.scheduler)
          (record { scheduler = refl; phase = sym start }) h in
      let es = r.schedule in
      let a = r.agrees in
      let safe = run-no_fault es s.world.scheduler ok in
      (es, (sym a.scheduler, sym a.phase, rw (← a.phase) safe.0, rw (← a.scheduler) safe.1))
