-- ===== src/Tests/Handlers.antt =====
-- Inputs for the trap handler and the application's interrupt routine.
use trace_fs.Base.{◌^◌, ◌-◌, none, replicate, if◌then◌else◌, ◌≡◌, refl}
use trace_fs.Base.Int.{pos, negsuc}
use trace_fs.Hal.Core.{heartbeat_beat}
use trace_fs.Scheduler.{scheduler_next}
use trace_fs.Asw.Minmax.{Vars, isr2_minmax}
use trace_fs.Trap.{Firmware, handle_trap}
use trace_fs.Trap.Dispatch.{timer_pending, gpio_pending, handle_trap-interrupt}
use trace_fs.Tests.Drivers.{board, expired}

-- The largest `x` and the smallest `y`, so that a sum and a product wrap.
abbrev extreme : Vars
extreme = record {
  x = pos (2 ^ 31 - 1);
  y = negsuc (2 ^ 31 - 1);
  z = pos (2 ^ 31 - 1);
  result = pos 0;
}

-- A timer interrupt is pending.
abbrev pub firmware : Firmware board
firmware = record {
  device = expired;
  csrs = record { mstatus = 0x1888; mie = 0x800 };
  heartbeat = 3;
  scheduler = record { queue = replicate 4 none; enabled = 1; ticks = 4 };
  vars = extreme;
}

handle_trap-interrupt_example :
    let (mepc', s') = handle_trap board 0x8000_000b 0x100 firmware in
    (mepc' ≡ 0x100)
    × (s'.heartbeat ≡ (if timer_pending board firmware then heartbeat_beat 3 else 3))
    × (s'.scheduler ≡ (
        if timer_pending board firmware
        then scheduler_next firmware.scheduler
        else firmware.scheduler))
    × (s'.vars ≡ (if gpio_pending board firmware then isr2_minmax extreme else extreme))
handle_trap-interrupt_example = handle_trap-interrupt board 0x8000_000b 0x100 firmware refl
