-- ===== src/System.antt =====
-- The firmware as a whole: the main loop of firmware/emsa5/scheduler.c with the functions of the
-- tasks, and the trap handler of handler.c between any two of its steps. A task's function is one
-- step. `Told` says what a receiver of the trace is to read, and `Start` is `main` of fw.c.
pub mod Agrees
pub mod Mirrors
pub mod Simulation
pub mod Progress
pub mod Start
pub mod Told
pub mod Goes
pub mod Trace
pub mod Defined
use trace_fs.Base.{ℕ, ◌+◌, List, [], ◌∷◌, ◌++◌, Option, none, some, ltb, ◌==◌, if◌then◌else◌}
use trace_fs.Hal.Bus.{Bus}
use trace_fs.Hal.Core.{Csrs}
use trace_fs.Ctrace.Emit.{ownership_trace}
use trace_fs.Scheduler.{Task, num_tasks}
use trace_fs.Scheduler.Run.{
  Phase, at_while, at_slot, at_trace, at_entry, in_task, stopped, fault, slot, test_slot,
  clear_slot,
}
use trace_fs.Trap.{Firmware, handle_trap}
use trace_fs.Tasks.{Platform, World, call}

-- The tasks' state, what only the trap handler changes, and the place of the main program.
pub record System (platform : Platform) : Type 0 where
  pub world : World platform
  pub csrs : Csrs
  pub heartbeat : ℕ
  pub phase : Phase

-- A step of the main program, or a trap with its `mcause` and `mepc`, before which the peripherals
-- change in any way.
pub data Happening (platform : Platform) : Type 0 where
  main_goes : Happening platform
  trapped : ℕ → ℕ → (platform.bus.Device → platform.bus.Device) → Happening platform

module _ (platform : Platform) where
  open platform use {bus}

  -- What the trap handler sees.
  abbrev pub firmware_of : System platform → Firmware bus
  firmware_of s = record {
    device = s.world.device;
    csrs = s.csrs;
    heartbeat = s.heartbeat;
    scheduler = s.world.scheduler;
    vars = s.world.scenario.vars;
  }

  abbrev pub with_firmware : Firmware bus → System platform → System platform
  with_firmware f s = record s {
    world = record s.world {
      device = f.device;
      scheduler = f.scheduler;
      scenario = record s.world.scenario { vars = f.vars };
    };
    csrs = f.csrs;
    heartbeat = f.heartbeat;
  }

  unfoldable pub trap :
      ℕ → ℕ → (platform.bus.Device → platform.bus.Device) → System platform → System platform
  trap mcause mepc arrive s =
      let f = firmware_of s in
      with_firmware (handle_trap bus mcause mepc (record f { device = arrive f.device })).1 s

  abbrev pub trace_at : ℕ → Option Task → System platform → System platform
  trace_at i none s = record s { phase = fault }
  trace_at i (some t) s = record s {
    phase = at_entry i;
    world = record s.world { writes = s.world.writes ++ ownership_trace t.id };
  }

  -- `none` where the function of the task has no defined result.
  abbrev pub enter_at : ℕ → Option Task → System platform → Option (System platform)
  enter_at i none s = some (record s { phase = fault })
  enter_at i (some t) s = elim (call platform t.entry s.world) [
    | none ↦ none
    | some w ↦ some (record s { phase = in_task i t; world = w })
  ]

  abbrev pub main_at : Phase → System platform → Option (System platform)
  main_at at_while s =
      some (record s { phase = if s.world.scheduler.enabled == 0 then stopped else at_slot 0 })
  main_at (at_slot i) s = some (record s {
    phase = if ltb i num_tasks then test_slot i (slot s.world.scheduler.queue i) else at_while;
  })
  main_at (at_trace i) s = some (trace_at i (slot s.world.scheduler.queue i) s)
  main_at (at_entry i) s = enter_at i (slot s.world.scheduler.queue i) s
  main_at (in_task i t) s = some (record s {
    phase = at_slot (i + 1);
    world = record s.world { scheduler = clear_slot i s.world.scheduler };
  })
  main_at stopped s = some s
  main_at fault s = some s

  unfoldable pub happen : Happening platform → System platform → Option (System platform)
  unfolding trap
  happen main_goes s = main_at s.phase s
  happen (trapped mcause mepc arrive) s = some (trap mcause mepc arrive s)

  unfoldable pub run_system : List (Happening platform) → System platform → Option (System platform)
  unfolding happen
  run_system [] s = some s
  run_system (h ∷ hs) s = elim (happen h s) [ none ↦ none | some s' ↦ run_system hs s' ]
