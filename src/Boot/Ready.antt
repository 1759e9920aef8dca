-- ===== src/Boot/Ready.antt =====
-- The state that `main` hands to `scheduler_run`, and the LEDs of `blinkenlights`.
use trace_fs.Base.{ℕ, ◌*◌, ◌/◌, ◌%◌, ◌^◌, ◌<◌, ◌≡◌, ◌≢◌, bit_at, List, refl, inl, arith}
use trace_fs.Bits.{bit_or_bit}
use trace_fs.Bits.Field.{bit_and_field}
use trace_fs.Hal.Bus.{Bus}
use trace_fs.Hal.Core.{
  heartbeat_init, heartbeat_beat, core_enable_interrupts, core_enable_external_interrupt,
}
use trace_fs.Hal.Irq.{irq_init}
use trace_fs.Scheduler.{tasks, scheduler_init, scheduler_enable}
use trace_fs.Scheduler.Slots.{SlotsOk}
use trace_fs.Scheduler.Run.{Event, fault, run, enter_run}
use trace_fs.Scheduler.Safety.{run-no_fault}
use trace_fs.Trap.{Firmware}
use trace_fs.Boot.{led_bits, hw_init, boot}

module _ (bus : Bus) where
  boot-SlotsOk : (s : Firmware bus) → SlotsOk tasks (boot bus s).scheduler.queue
  unfolding boot scheduler_init
  boot-SlotsOk s = (inl refl, (inl refl, (inl refl, (inl refl, tt))))

  -- For every device and whatever memory held before: behind the initialisations the heartbeat is
  -- 3, the scheduler is enabled at time 0, interrupts and the external interrupt are enabled in
  -- the core, and the main loop that starts then never reads through a null slot, under every
  -- schedule of its steps and timer interrupts.
  pub boot-ready :
      (s : Firmware bus) (es : List Event)
      → let s' = boot bus s in
        (s'.heartbeat ≡ 3)
        × (s'.scheduler.enabled ≡ 1)
        × (s'.scheduler.ticks ≡ 0)
        × (bit_at 3 s'.csrs.mstatus ≡ 1)
        × (bit_at 11 s'.csrs.mie ≡ 1)
        × ((run es (enter_run s'.scheduler)).phase ≢ fault)
  unfolding boot scheduler_init scheduler_enable hw_init irq_init heartbeat_init heartbeat_beat
      core_enable_interrupts core_enable_external_interrupt
  boot-ready s es = (
    refl,
    refl,
    refl,
    omega (arith, bit_or_bit 3 s.csrs.mstatus),
    omega (arith, bit_or_bit 11 s.csrs.mie),
    (run-no_fault es (boot bus s).scheduler (boot-SlotsOk s)).0,
  )

-- For any 32-bit reading of the cycle counter, the status byte has the counter's bits 24 and 25 as
-- its bits 6 and 7, which are those of LED block 0, and no other bit.
pub led_bits_lem :
    (cycles : ℕ) → cycles < 2 ^ 32 → led_bits cycles ≡ cycles / 2 ^ 24 % 2 ^ 2 * 2 ^ 6
unfolding led_bits
led_bits_lem cycles h = omega (arith, bit_and_field 2 24 cycles)
