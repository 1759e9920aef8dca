-- ===== src/Interleaved/Pace.antt =====
-- How many steps the main program makes inside the tasks' functions.
use trace_fs.Base.{
  ℕ, ◌+◌, ◌*◌, ◌≤◌, ◌≡◌, refl, sym, arith, List, [], ◌∷◌, Option, none, some, some_inj, length,
}
use trace_fs.Scheduler.{Entry, task_5ms, task_10ms, task_100ms, task_1000ms, Task}
use trace_fs.Scheduler.Run.{
  Phase, at_while, at_slot, at_trace, at_entry, in_task, stopped, fault, slot,
}
use trace_fs.Tasks.{Platform}
use trace_fs.Tasks.Accesses.{Access, Frame, accesses}
use trace_fs.System.{System, Happening, main_goes, trapped, main_at}
use trace_fs.System.Told.{main_steps_of}
use trace_fs.System.Simulation.{main_steps-cons}
use trace_fs.Interleaved.{
  Interleaved, call_slot, in_loop, resume, outside, goes_on, interleave, run_interleaved,
  loop_step_at, loop_step_of, loop_steps,
}

length-accesses : (e : Entry) → length (accesses e) ≤ 9
unfolding accesses
length-accesses task_5ms = omega arith
length-accesses task_10ms = omega arith
length-accesses task_100ms = omega arith
length-accesses task_1000ms = omega arith

module _ (platform : Platform) where
  call_slot-length :
      (i : ℕ) (o : Option Task) (s : Interleaved platform)
      → s.left ≡ []
      → length (call_slot platform i o s).left ≤ 9
  call_slot-length i none s e = rw e (omega arith)
  call_slot-length i (some t) s e = length-accesses t.entry

  in_loop-length :
      (o : Option (System platform)) (s s' : Interleaved platform)
      → s.left ≡ []
      → in_loop platform o s ≡ some s'
      → length s'.left ≤ 9
  in_loop-length none s s' e h = absurd (cc)
  in_loop-length (some r) s s' e h = rw (some_inj s' _ (sym h), e) (omega arith)

  outside-length :
      (p : Phase) (s s' : Interleaved platform)
      → s.left ≡ []
      → outside platform p s ≡ some s'
      → length s'.left ≤ 9
  outside-length at_while s s' e h = in_loop-length (main_at platform at_while s.system) s s' e h
  outside-length (at_slot i) s s' e h =
      in_loop-length (main_at platform (at_slot i) s.system) s s' e h
  outside-length (at_trace i) s s' e h =
      in_loop-length (main_at platform (at_trace i) s.system) s s' e h
  outside-length (at_entry i) s s' e h =
      rw (some_inj s' _ (sym h)) (call_slot-length i (slot s.system.world.scheduler.queue i) s e)
  outside-length (in_task i t) s s' e h =
      in_loop-length (main_at platform (in_task i t) s.system) s s' e h
  outside-length stopped s s' e h = in_loop-length (main_at platform stopped s.system) s s' e h
  outside-length fault s s' e h = in_loop-length (main_at platform fault s.system) s s' e h

  resume-length :
      (left : List Access) (o : Option (Frame platform)) (s s' : Interleaved platform)
      → resume platform left o s ≡ some s'
      → length s'.left ≡ length left
  resume-length left none s s' h = absurd (cc)
  resume-length left (some f) s s' h = rw (some_inj s' _ (sym h)) refl

  goes_on-length :
      (left : List Access) (s s' : Interleaved platform)
      → s.left ≡ left
      → goes_on platform left s ≡ some s'
      → 1 + length s'.left ≤ length left + 10 * loop_step_at platform left
  goes_on-length [] s s' e h = omega (arith, outside-length s.system.phase s s' e h)
  goes_on-length (a ∷ left) s s' e h = omega (arith, resume-length left _ s s' h)

  interleave-length :
      (h : Happening platform) (s s' : Interleaved platform)
      → interleave platform h s ≡ some s'
      → main_steps_of platform (h ∷ []) + length s'.left
        ≤ length s.left + 10 * loop_step_of platform h s
  unfolding interleave
  interleave-length main_goes s s' h = omega (arith, goes_on-length s.left s s' refl h)
  interleave-length (trapped mcause mepc arrive) s s' h = rw (some_inj s' _ (sym h)) (omega arith)

  -- A step of the main loop is followed by nine accesses at most.
  pub loop_steps-enough :
      (hs : List (Happening platform)) (s s' : Interleaved platform)
      → run_interleaved platform hs s ≡ some s'
      → main_steps_of platform hs + length s'.left ≤ length s.left + 10 * loop_steps platform hs s
  unfolding run_interleaved loop_steps
  loop_steps-enough [] s s' h = rw (some_inj s' _ (sym h)) (omega arith)
  loop_steps-enough (e ∷ hs) s s' h =
      by_result (λ s1 k. loop_steps-enough hs s1 s' k) (interleave platform e s) refl h
    where
      by_result :
          ((s1 : Interleaved platform)
            → run_interleaved platform hs s1 ≡ some s'
            → main_steps_of platform hs + length s'.left
              ≤ length s1.left + 10 * loop_steps platform hs s1)
          → (r : Option (Interleaved platform)) → interleave platform e s ≡ r
          → elim r [ none ↦ none | some s1 ↦ run_interleaved platform hs s1 ] ≡ some s'
          → main_steps_of platform (e ∷ hs) + length s'.left
            ≤ length s.left
              + 10
                * (loop_step_of platform e s
                    + elim r [ none ↦ 0 | some s1 ↦ loop_steps platform hs s1 ])
      by_result further none eq h = absurd (cc)
      by_result further (some s1) eq h =
          omega (arith, main_steps-cons platform e hs, interleave-length e s s1 eq, further s1 h)
