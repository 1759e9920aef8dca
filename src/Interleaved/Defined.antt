-- ===== src/Interleaved/Defined.antt =====
-- Which steps of the firmware with traps at any access C defines: neither undefined in a task nor a
-- read through a null pointer.
use trace_fs.Base.{
  is_some, ℕ, ◌≡◌, ◌≢◌, refl, ap, some_inj, ◌++◌, ◌∙◌, List, [], ◌∷◌, Option, none, some, Bool,
  true, false, not, arith, if◌then◌else◌,
}
use trace_fs.Base.Int.{ℤ, pos}
use trace_fs.Scheduler.Run.{Phase, at_while, at_slot, at_trace, at_entry, in_task, stopped, fault}
use trace_fs.Asw.Scenarios.{f, init_value}
use trace_fs.Asw.Scenarios.Defined.{f_at, is_some-init_value, is_good_index}
use trace_fs.Tasks.{Platform}
use trace_fs.Tasks.Effect.{wait-some}
use trace_fs.Tasks.Accesses.{
  Access, choose_routine, run_bs, run_math, read_signal, read_led, write_led, busy_wait, run_dhry,
  set_signal, read_x, write_y, read_z, write_z, send_test, clear_enabled, read_control,
  write_control, run_asm_test, Frame, keep_value, exec,
}
use trace_fs.System.{Happening, main_goes, trapped}
use trace_fs.Interleaved.{Interleaved, resume, outside, goes_on, interleave, run_interleaved}
use trace_fs.Interleaved.Safety.{run_interleaved_sound}
use trace_fs.Scheduler.{tasks}
use trace_fs.Scheduler.Slots.{SlotsOk}

abbrev pub is_fault : Phase → Bool
is_fault fault = true
is_fault _ = false

is_fault-ne : (p : Phase) → p ≢ fault → not (is_fault p) ≡ true
is_fault-ne at_while ne = refl
is_fault-ne (at_slot i) ne = refl
is_fault-ne (at_trace i) ne = refl
is_fault-ne (at_entry i) ne = refl
is_fault-ne (in_task i t) ne = refl
is_fault-ne stopped ne = refl
is_fault-ne fault ne = absurd (ne refl)

abbrev pub is_read_x : Access → Bool
is_read_x read_x = true
is_read_x _ = false

module _ (platform : Platform) where
  is_some-exec :
      (a : Access) (s : Frame platform)
      → is_some (exec platform a s)
        ≡ (if is_read_x a then is_good_index s.world.scenario.vars.x else true)
  unfolding exec
  is_some-exec choose_routine s = refl
  is_some-exec run_bs s = refl
  is_some-exec run_math s = refl
  is_some-exec read_signal s = refl
  is_some-exec (read_led target) s = refl
  is_some-exec (write_led target status) s = refl
  is_some-exec (busy_wait cycles) s = rw (wait-some platform cycles s.world) refl
  is_some-exec run_dhry s = refl
  is_some-exec set_signal s = refl
  is_some-exec read_x s =
      by_index (init_value s.world.scenario.vars.x) ∙ is_some-init_value s.world.scenario.vars.x
    where
      by_value : (o : Option ℤ) → is_some (keep_value platform o s) ≡ is_some o
      by_value none = refl
      by_value (some v) = refl

      by_index :
          (o : Option ℕ)
          → is_some (keep_value platform (elim o [ none ↦ none | some v ↦ f (pos v) ]) s)
            ≡ is_some (f_at o)
      by_index none = refl
      by_index (some v) = by_value (f (pos v))
  is_some-exec write_y s = refl
  is_some-exec read_z s = refl
  is_some-exec write_z s = refl
  is_some-exec send_test s = refl
  is_some-exec clear_enabled s = refl
  is_some-exec read_control s = refl
  is_some-exec write_control s = refl
  is_some-exec run_asm_test s = refl

  is_some-resume :
      (left : List Access) (o : Option (Frame platform)) (s : Interleaved platform)
      → is_some (resume platform left o s) ≡ is_some o
  is_some-resume left none s = refl
  is_some-resume left (some r) s = refl

  is_some-outside : (p : Phase) (s : Interleaved platform) → is_some (outside platform p s) ≡ true
  is_some-outside at_while s = refl
  is_some-outside (at_slot i) s = refl
  is_some-outside (at_trace i) s = refl
  is_some-outside (at_entry i) s = refl
  is_some-outside (in_task i t) s = refl
  is_some-outside stopped s = refl
  is_some-outside fault s = refl

  -- The running function is about to read the table, at an index that is not good now.
  abbrev pub is_bad_access : List Access → ℤ → Bool
  is_bad_access [] x = false
  is_bad_access (a ∷ left) x = if is_read_x a then not (is_good_index x) else false

  abbrev pub is_bad_step : Happening platform → Interleaved platform → Bool
  is_bad_step main_goes s = is_bad_access s.left s.system.world.scenario.vars.x
  is_bad_step (trapped mcause mepc arrive) s = false

  goes_on_defined :
      (left : List Access) (s : Interleaved platform)
      → is_some (goes_on platform left s) ≡ not (is_bad_access left s.system.world.scenario.vars.x)
  goes_on_defined [] s = is_some-outside s.system.phase s
  goes_on_defined (a ∷ left) s =
      is_some-resume left _ s
      ∙ is_some-exec a (record { local = s.local; world = s.system.world })
      ∙ by_access (is_read_x a) (is_good_index s.system.world.scenario.vars.x)
    where
      by_access :
          (reads good : Bool)
          → (if reads then good else true) ≡ not (if reads then not good else false)
      by_access reads good = ground arith

  -- Whether a step has a state behind it, and that state is not the one behind a read through a null
  -- pointer.
  abbrev pub is_defined : Option (Interleaved platform) → Bool
  is_defined none = false
  is_defined (some s) = not (is_fault s.system.phase)

  is_some-interleave :
      (h : Happening platform) (s : Interleaved platform)
      → is_some (interleave platform h s) ≡ not (is_bad_step h s)
  unfolding interleave
  is_some-interleave main_goes s = goes_on_defined s.left s
  is_some-interleave (trapped mcause mepc arrive) s = refl

  run_interleaved-step :
      (hs : List (Happening platform)) (h : Happening platform) (s s' : Interleaved platform)
      → run_interleaved platform hs s ≡ some s'
      → run_interleaved platform (hs ++ (h ∷ [])) s ≡ interleave platform h s'
  unfolding run_interleaved
  run_interleaved-step [] h s s' e =
      by_step (interleave platform h s) ∙ ap (interleave platform h) (some_inj s s' e)
    where
      by_step :
          (o : Option (Interleaved platform)) → elim o [ none ↦ none | some s'' ↦ some s'' ] ≡ o
      by_step none = refl
      by_step (some s'') = refl
  run_interleaved-step (g ∷ hs) h s s' e =
      by_first (λ s'' k. run_interleaved-step hs h s'' s' k) (interleave platform g s) e
    where
      by_first :
          ((s'' : Interleaved platform)
            → run_interleaved platform hs s'' ≡ some s'
            → run_interleaved platform (hs ++ (h ∷ [])) s'' ≡ interleave platform h s')
          → (o : Option (Interleaved platform))
          → elim o [ none ↦ none | some s'' ↦ run_interleaved platform hs s'' ] ≡ some s'
          → elim o [ none ↦ none | some s'' ↦ run_interleaved platform (hs ++ (h ∷ [])) s'' ]
            ≡ interleave platform h s'
      by_first further none e = absurd (cc)
      by_first further (some s'') e = further s'' e

  -- For every state that the firmware reaches from the entry of its main loop with a well-formed
  -- queue, by any steps and with any traps at any access: the next step, whatever it is, has a
  -- defined result and reads through no null pointer, except exactly if it is the read of the table
  -- in the task of 100 ms and the x that it finds there, which the traps may have changed since the
  -- task was called, is not a good index.
  pub run_interleaved_defined :
      (hs : List (Happening platform)) (h : Happening platform) (s s' : Interleaved platform)
      → s.system.phase ≡ at_while
      → s.left ≡ []
      → SlotsOk tasks s.system.world.scheduler.queue
      → run_interleaved platform hs s ≡ some s'
      → is_defined (interleave platform h s') ≡ not (is_bad_step h s')
  run_interleaved_defined hs h s s' start none_left ok e =
      by_step (interleave platform h s') refl ∙ is_some-interleave h s'
    where
      by_step :
          (o : Option (Interleaved platform))
          → interleave platform h s' ≡ o
          → is_defined (interleave platform h s') ≡ is_some (interleave platform h s')
      by_step none eo = rw eo refl
      by_step (some s'') eo = rw eo (
          is_fault-ne s''.system.phase
            (run_interleaved_sound platform (hs ++ (h ∷ [])) s s'' start none_left ok
              (run_interleaved-step hs h s s' e ∙ eo)).1.3)
