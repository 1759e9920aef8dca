-- ===== src/Interleaved.antt =====
-- The firmware as in `System`, with the functions of the tasks cut at their accesses
-- (`Tasks.Accesses`): a trap may come between any two steps of firmware/emsa5/scheduler.c's main
-- loop, and between any two accesses of the function that the loop has called.
pub mod Effect
pub mod Simulation
pub mod Pace
pub mod Safety
pub mod Goes
pub mod Trace
pub mod Liveness
pub mod Lost
pub mod Defined
pub mod Atomic
pub mod Start
use trace_fs.Base.{ℕ, ◌+◌, List, [], ◌∷◌, ◌++◌, Option, none, some}
use trace_fs.Scheduler.{Task}
use trace_fs.Scheduler.Run.{
  Phase, at_while, at_slot, at_trace, at_entry, in_task, stopped, fault, slot,
}
use trace_fs.Tasks.{Platform}
use trace_fs.Tasks.Accesses.{Access, Local, Frame, exec, accesses}
use trace_fs.System.{System, Happening, main_goes, trapped, trap, main_at}
use trace_fs.System.Told.{about}

-- `left` holds the accesses that the running function has still to make.
pub record Interleaved (platform : Platform) : Type 0 where
  pub system : System platform
  pub local : Local
  pub left : List Access

module _ (platform : Platform) where
  -- The call from slot i: the function stands before its first access.
  abbrev pub call_slot : ℕ → Option Task → Interleaved platform → Interleaved platform
  call_slot i none s = record s { system = record s.system { phase = fault } }
  call_slot i (some t) s = record s {
    system = record s.system { phase = in_task i t };
    left = accesses t.entry;
  }

  abbrev pub in_loop :
      Option (System platform) → Interleaved platform → Option (Interleaved platform)
  in_loop none s = none
  in_loop (some r) s = some (record s { system = r })

  -- A step of the main loop outside the function of a task.
  abbrev pub outside : Phase → Interleaved platform → Option (Interleaved platform)
  outside at_while s = in_loop (main_at platform at_while s.system) s
  outside (at_slot i) s = in_loop (main_at platform (at_slot i) s.system) s
  outside (at_trace i) s = in_loop (main_at platform (at_trace i) s.system) s
  outside (at_entry i) s = some (call_slot i (slot s.system.world.scheduler.queue i) s)
  outside (in_task i t) s = in_loop (main_at platform (in_task i t) s.system) s
  outside stopped s = in_loop (main_at platform stopped s.system) s
  outside fault s = in_loop (main_at platform fault s.system) s

  abbrev pub resume :
      List Access → Option (Frame platform) → Interleaved platform → Option (Interleaved platform)
  resume left none s = none
  resume left (some f) s =
      some (record s { system = record s.system { world = f.world }; local = f.local; left = left })

  -- A step of the main program.
  abbrev pub goes_on : List Access → Interleaved platform → Option (Interleaved platform)
  goes_on [] s = outside s.system.phase s
  goes_on (a ∷ left) s =
      resume left (exec platform a (record { local = s.local; world = s.system.world })) s

  unfoldable pub interleave :
      Happening platform → Interleaved platform → Option (Interleaved platform)
  unfolding trap exec accesses
  interleave main_goes s = goes_on s.left s
  interleave (trapped mcause mepc arrive) s =
      some (record s { system = trap platform mcause mepc arrive s.system })

  unfoldable pub run_interleaved :
      List (Happening platform) → Interleaved platform → Option (Interleaved platform)
  unfolding interleave
  run_interleaved [] s = some s
  run_interleaved (h ∷ hs) s = elim (interleave h s) [
    | none ↦ none
    | some s' ↦ run_interleaved hs s'
  ]

  -- The task that a step calls, and whether it is a step of the main loop itself.
  abbrev pub called_at : List Access → Interleaved platform → List Task
  called_at [] s = about s.system.phase s.system.world.scheduler.queue
  called_at (a ∷ left) s = []

  abbrev pub calls_of : Happening platform → Interleaved platform → List Task
  calls_of main_goes s = called_at s.left s
  calls_of (trapped mcause mepc arrive) s = []

  abbrev pub loop_step_at : List Access → ℕ
  loop_step_at [] = 1
  loop_step_at (a ∷ left) = 0

  abbrev pub loop_step_of : Happening platform → Interleaved platform → ℕ
  loop_step_of main_goes s = loop_step_at s.left
  loop_step_of (trapped mcause mepc arrive) s = 0

  -- The tasks that a run calls, in order.
  unfoldable pub all_calls : List (Happening platform) → Interleaved platform → List Task
  all_calls [] s = []
  all_calls (h ∷ hs) s =
      calls_of h s ++ elim (interleave h s) [ none ↦ [] | some s' ↦ all_calls hs s' ]

  -- The steps of the main loop itself in a run.
  unfoldable pub loop_steps : List (Happening platform) → Interleaved platform → ℕ
  loop_steps [] s = 0
  loop_steps (h ∷ hs) s =
      loop_step_of h s + elim (interleave h s) [ none ↦ 0 | some s' ↦ loop_steps hs s' ]
