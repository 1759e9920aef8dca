-- ===== src/Interleaved/Effect.antt =====
-- What the accesses of the tasks' functions do to the scheduler, and to the trace.
use trace_fs.Base.{
  ◌≡◌, refl, ◌∙◌, arith, List, [], ◌∷◌, ◌++◌, Option, none, some, Bool, true, false, if◌then◌else◌,
}
use trace_fs.Base.Int.{ℤ, pos}
use trace_fs.Ctrace.Test.{ctrace_test_main}
use trace_fs.Scheduler.{
  Entry, task_5ms, task_10ms, task_100ms, task_1000ms, Scheduler, scheduler_next,
}
use trace_fs.Scheduler.Run.{enter}
use trace_fs.Asw.Scenarios.{f, init_value}
use trace_fs.Tasks.{Platform, World}
use trace_fs.Tasks.Effect.{wait-some}
use trace_fs.Tasks.Accesses.{
  Access, choose_routine, run_bs, run_math, read_signal, read_led, write_led, busy_wait, run_dhry,
  set_signal, read_x, write_y, read_z, write_z, send_test, clear_enabled, read_control,
  write_control, run_asm_test, Frame, keep_value, exec, accesses,
}

-- What an access does to the scheduler, and what the accesses that are left will have done.
abbrev pub effect : Access → Scheduler → Scheduler
effect clear_enabled s = record s { enabled = 0 }
effect _ s = s

abbrev pub effects : List Access → Scheduler → Scheduler
effects [] s = s
effects (a ∷ left) s = effects left (effect a s)

pub effects-accesses : (e : Entry) (s : Scheduler) → effects (accesses e) s ≡ enter e s
unfolding accesses
effects-accesses task_5ms s = refl
effects-accesses task_10ms s = refl
effects-accesses task_100ms s = refl
effects-accesses task_1000ms s = refl

-- A tick before an access is as good as a tick behind it.
effect-next :
    (a : Access) (s : Scheduler) → effect a (scheduler_next s) ≡ scheduler_next (effect a s)
unfolding scheduler_next
effect-next a s = ground arith

pub effects-next :
    (left : List Access) (s : Scheduler)
    → effects left (scheduler_next s) ≡ scheduler_next (effects left s)
effects-next [] s = refl
effects-next (a ∷ left) s = rw effect-next (effects-next left (effect a s))

-- The accesses leave the queue to the main loop and the traps.
pub effect-queue : (a : Access) (s : Scheduler) → (effect a s).queue ≡ s.queue
effect-queue a s = ground arith

pub effects-queue : (left : List Access) (s : Scheduler) → (effects left s).queue ≡ s.queue
effects-queue [] s = refl
effects-queue (a ∷ left) s = effects-queue left (effect a s) ∙ effect-queue a s

abbrev pub is_send : Access → Bool
is_send send_test = true
is_send _ = false

module _ (platform : Platform) where
  open platform use {misa, self}

  abbrev pub Does : Access → World platform → World platform → Type 0
  Does a w w' =
      let (writes, counter) = ctrace_test_main w.counter misa self in
      (w'.scheduler ≡ effect a w.scheduler)
      × (w'.writes ≡ (if is_send a then w.writes ++ writes else w.writes))
      × (w'.counter ≡ (if is_send a then counter else w.counter))

  abbrev MayDo : Access → World platform → Option (Frame platform) → Type 0
  MayDo a w none = Unit
  MayDo a w (some s) = Does a w s.world

  exec-MayDo : (a : Access) (s : Frame platform) → MayDo a s.world (exec platform a s)
  unfolding exec ctrace_test_main
  exec-MayDo choose_routine s = (refl, refl, refl)
  exec-MayDo run_bs s = (refl, refl, refl)
  exec-MayDo run_math s = (refl, refl, refl)
  exec-MayDo read_signal s = (refl, refl, refl)
  exec-MayDo (read_led target) s = (refl, refl, refl)
  exec-MayDo (write_led target status) s = (refl, refl, refl)
  exec-MayDo (busy_wait cycles) s = rw (wait-some platform cycles s.world) (refl, refl, refl)
  exec-MayDo run_dhry s = (refl, refl, refl)
  exec-MayDo set_signal s = (refl, refl, refl)
  exec-MayDo read_x s =
      by_value (elim (init_value s.world.scenario.vars.x) [ none ↦ none | some v ↦ f (pos v) ])
    where
      by_value : (o : Option ℤ) → MayDo read_x s.world (keep_value platform o s)
      by_value none = tt
      by_value (some v) = (refl, refl, refl)
  exec-MayDo write_y s = (refl, refl, refl)
  exec-MayDo read_z s = (refl, refl, refl)
  exec-MayDo write_z s = (refl, refl, refl)
  exec-MayDo send_test s = (refl, refl, refl)
  exec-MayDo clear_enabled s = (refl, refl, refl)
  exec-MayDo read_control s = (refl, refl, refl)
  exec-MayDo write_control s = (refl, refl, refl)
  exec-MayDo run_asm_test s = (refl, refl, refl)

  -- An access changes the scheduler only to disable it, and the trace only to send the test.
  pub exec-Does :
      (a : Access) (s s' : Frame platform) → exec platform a s ≡ some s' → Does a s.world s'.world
  exec-Does a s s' h = rw h at (exec-MayDo a s)
