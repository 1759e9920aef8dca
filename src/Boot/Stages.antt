-- ===== src/Boot/Stages.antt =====
-- `main` of firmware/emsa5/fw.c up to the call of `scheduler_run`, with traps: from
-- `core_enable_interrupts` on, any number of them may happen before each statement, each store of
-- the loop in `scheduler_init`, and each access to the timer.
use trace_fs.Base.{ℕ, ◌*◌, none, set}
use trace_fs.Hal.Bus.{Bus}
use trace_fs.Hal.Core.{heartbeat_init, core_enable_interrupts}
use trace_fs.Hal.Timer.{timer_0, timer_configure_periodic_timer}
use trace_fs.Scheduler.{slowdown, one_millisecond, scheduler_enable}
use trace_fs.Trap.{Firmware}
use trace_fs.Trap.Interruptible.{Running, interrupt, interruptible}
use trace_fs.Boot.{hw_init, beat}

module _ (bus : Bus) where
  -- The statements up to `core_enable_interrupts`.
  unfoldable pub boot_front : Firmware bus → Firmware bus
  boot_front f =
      let f = beat bus (record f { heartbeat = heartbeat_init }) in
      let f = beat bus (hw_init bus f) in record f { csrs = core_enable_interrupts f.csrs }

  abbrev pub reset_ticks : Firmware bus → Firmware bus
  reset_ticks f = record f { scheduler = record f.scheduler { ticks = 0 } }

  -- `scheduler_queue[i] = NULL;`
  abbrev pub reset_slot : ℕ → Firmware bus → Firmware bus
  reset_slot i f = record f {
    scheduler = record f.scheduler { queue = set f.scheduler.queue i none };
  }

  abbrev pub enable : Firmware bus → Firmware bus
  enable f = record f { scheduler = scheduler_enable f.scheduler }

  -- A statement behind the traps that are due before it.
  abbrev pub stage : (Firmware bus → Firmware bus) → Running bus → Running bus
  stage statement s = let s = interrupt bus s in record s { firmware = statement s.firmware }

  unfoldable pub scheduler_init_interrupted : Running bus → Running bus
  scheduler_init_interrupted s =
      let s = stage reset_ticks s in
      let s = stage (reset_slot 0) s in
      let s = stage (reset_slot 1) s in
      let s = stage (reset_slot 2) s in
      let s = stage (reset_slot 3) s in
      let s =
        timer_configure_periodic_timer (interruptible bus) timer_0 (slowdown * one_millisecond) s in
      stage enable s

  unfoldable pub boot_interrupted : Running bus → Running bus
  unfolding scheduler_init_interrupted
  boot_interrupted s =
      let s = record s { firmware = boot_front s.firmware } in
      scheduler_init_interrupted (stage (beat bus) s)
