-- ===== src/Boot.antt =====
-- firmware/emsa5/fw.c: the initialisations of `main` in their order, and `blinkenlights`, which runs
-- when the scheduler has stopped. `Stages` is the start with traps between its statements.
pub mod Ready
pub mod Slots
pub mod Stages
pub mod Booting
pub mod Interrupted
use trace_fs.Base.{ℕ, bit_and, ◌<<<◌, ◌>>>◌, ◌==◌, if◌then◌else◌}
use trace_fs.Hal.Bus.{Bus}
use trace_fs.Hal.Core.{heartbeat_init, heartbeat_beat, core_enable_interrupts}
use trace_fs.Hal.Irq.{irq_init}
use trace_fs.Hal.Gpio.{gpio_init}
use trace_fs.Hal.Led.{led_block_0, led_toggle, led_init}
use trace_fs.Hal.Timer.{timer_init}
use trace_fs.Scheduler.{scheduler_init}
use trace_fs.Trap.{Firmware}

-- `((cycles & 0x03000000) << 6) >> 24`
unfoldable pub led_bits : ℕ → ℕ
led_bits cycles = (bit_and cycles 0x0300_0000 <<< 6) >>> 24

module _ (bus : Bus) where
  unfoldable pub hw_init : Firmware bus → Firmware bus
  hw_init s =
      let (csrs, d) = irq_init bus s.csrs s.device in
      let d = gpio_init bus d in
      let d = led_init bus d in let d = timer_init bus d in record s { csrs = csrs; device = d }

  abbrev pub beat : Firmware bus → Firmware bus
  beat s = record s { heartbeat = heartbeat_beat s.heartbeat }

  -- `main` up to the call of `scheduler_run`, with no interrupt in between.
  unfoldable pub boot : Firmware bus → Firmware bus
  unfolding hw_init
  boot s =
      let s = record s { heartbeat = heartbeat_init } in
      let s = beat s in
      let s = hw_init s in
      let s = beat s in
      let s = record s { csrs = core_enable_interrupts s.csrs } in
      let s = beat s in
      let (scheduler, d) = scheduler_init bus s.scheduler s.device in
      record s { scheduler = scheduler; device = d }

  -- One round of the loop of `blinkenlights`, on what the cycle counter reads.
  unfoldable pub blink : ℕ → bus.Device → bus.Device
  unfolding led_bits
  blink cycles d =
      if led_bits cycles == 0 then d else led_toggle bus led_block_0 (led_bits cycles) d
