-- ===== src/Trap.antt =====
-- firmware/emsa5/handler.c: the trap handler, which acknowledges the interrupts that are pending,
-- shows them on the LEDs, and calls the scheduler's tick and the application's routine.
-- `Interruptible` puts traps between the accesses of other code, and `Entry` is trap.s.
pub mod Dispatch
pub mod Board
pub mod Served
pub mod Leds
pub mod Interruptible
pub mod Entry
pub mod Restored
pub mod Interrupted
pub mod Nested
use trace_fs.Base.{ℕ, bit_and, Bool, true, false, ◌==◌, if◌then◌else◌}
use trace_fs.Hal.Bus.{Bus}
use trace_fs.Hal.Core.{Csrs, core_disable_interrupts, core_enable_interrupts, heartbeat_beat}
use trace_fs.Hal.Irq.{
  Irq, irq_0, irq_1, irq_2, irq_3, irq_is_pending_interrupt, irq_acknowledge_interrupt,
}
use trace_fs.Hal.Timer.{timer_0, timer_1, timer_acknowledge_timer}
use trace_fs.Hal.Gpio.{gpio_acknowledge_interrupt}
use trace_fs.Hal.Led.{Led, led_0, led_1, led_2, led_3, on, off, led_toggle}
use trace_fs.Scheduler.{Scheduler, scheduler_next}
use trace_fs.Asw.Minmax.{Vars, isr2_minmax}

-- All that the handler changes: the peripherals, the CSRs, and the globals of the firmware.
pub record Firmware (bus : Bus) : Type 0 where
  pub device : bus.Device
  pub csrs : Csrs
  pub heartbeat : ℕ
  pub scheduler : Scheduler
  pub vars : Vars

module _ (bus : Bus) where
  unfoldable pub handle_timer_interrupt : Firmware bus → Firmware bus
  handle_timer_interrupt s = record s {
    heartbeat = heartbeat_beat s.heartbeat;
    scheduler = scheduler_next s.scheduler;
  }

  unfoldable pub handle_gpio_interrupt : Firmware bus → Firmware bus
  handle_gpio_interrupt s = record s { vars = isr2_minmax s.vars }

  -- `irq_acknowledge_interrupt(irq); led_toggle(led, ON);`
  abbrev pub served : Irq → Led → bus.Device → bus.Device
  served irq led d = let d = irq_acknowledge_interrupt bus irq d in led_toggle bus led on d

  -- The four tests of the handler.
  unfoldable pub serve_timer : Firmware bus → Firmware bus
  unfolding handle_timer_interrupt
  serve_timer s =
      let (pending, d) = irq_is_pending_interrupt bus irq_0 s.device in
      let d' = timer_acknowledge_timer bus timer_0 d in
      let d' = timer_acknowledge_timer bus timer_1 d' in
      let d' = served irq_0 led_0 d' in
      if pending
      then handle_timer_interrupt (record s { device = d' })
      else record s { device = led_toggle bus led_0 off d }

  unfoldable pub serve_led : Irq → Led → Firmware bus → Firmware bus
  serve_led irq led s =
      let (pending, d) = irq_is_pending_interrupt bus irq s.device in
      record s { device = if pending then served irq led d else led_toggle bus led off d }

  unfoldable pub serve_gpio : Firmware bus → Firmware bus
  unfolding handle_gpio_interrupt
  serve_gpio s =
      let (pending, d) = irq_is_pending_interrupt bus irq_2 s.device in
      let d' = gpio_acknowledge_interrupt bus d in
      let d' = served irq_2 led_2 d' in
      if pending
      then handle_gpio_interrupt (record s { device = d' })
      else record s { device = led_toggle bus led_2 off d }

  -- The body behind `mcause & 0x80000000`.
  unfoldable pub serve_all : Firmware bus → Firmware bus
  unfolding serve_timer serve_led serve_gpio
  serve_all s =
      let s = serve_timer s in
      let s = serve_led irq_1 led_1 s in let s = serve_gpio s in serve_led irq_3 led_3 s

  -- The address to return to, and the state.
  unfoldable pub handle_trap : ℕ → ℕ → Firmware bus → ℕ × Firmware bus
  unfolding serve_all
  handle_trap mcause mepc s =
      let s = record s { csrs = core_disable_interrupts s.csrs } in
      let s = if bit_and mcause 0x8000_0000 == 0 then s else serve_all s in
      (mepc, record s { csrs = core_enable_interrupts s.csrs })
