-- ===== src/Tasks/Leds.antt =====
-- What the functions of the tasks leave of the LEDs that they light.

use trace_fs.Base.{
  ℕ, ◌<◌, ◌≡◌, refl, ap, ◌∙◌, arith, some, Bool, false, bit_at, if◌then◌else◌, Bool-cases, inl, inr,
}
use trace_fs.Hal.Led.{Led, led_block_1, on, off, led_toggle}
use trace_fs.Hal.Led.Laws.{drives, led_toggle-bits}
use trace_fs.Hal.Timer.{timer_disable_timer}
use trace_fs.Hal.Bus.{tcsr0}
use trace_fs.Scheduler.{Entry, task_5ms, task_10ms, task_100ms, task_1000ms, scheduler_disable}
use trace_fs.Trap.Board.{IsBoard, update-IsSame}
use trace_fs.Trap.Served.{bit_at-off}
use trace_fs.Asw.Scenarios.{Scenario, is_set, task_5ms_bs_math}
use trace_fs.Tasks.Effect.{IsAfter, call-IsAfter}
use trace_fs.Tasks.{Platform, World, flag_led, run_10ms, call}

module _ (platform : Platform) where
  open platform use {bus}

  -- The bits of the data register that a task's LED drives.
  abbrev pub lit : Entry → World platform → ℕ → ℕ → Bool
  lit task_5ms w = drives (flag_led (is_set w.scenario.signal))
  lit task_10ms w = λ place i. false
  lit task_100ms w = λ place i. false
  lit task_1000ms w = drives led_block_1

  signal-bs_math : (s : Scenario) → (task_5ms_bs_math s).signal ≡ s.signal
  unfolding task_5ms_bs_math
  signal-bs_math s = elim (Bool-cases (is_set s.signal)) [ inl e ↦ rw e refl | inr e ↦ rw e refl ]

  module _ (laws : IsBoard bus) where
    open laws use {pins}

    -- On and off again.
    blinked :
        (led : Led) (place i : ℕ) (d : bus.Device)
        → i < 8
        → bit_at i (pins.byte place (led_toggle bus led off (led_toggle bus led on d)))
          ≡ (if drives led place i then 0 else bit_at i (pins.byte place d))
    blinked led place i d h =
        rw
          (
            led_toggle-bits bus pins led off place i (led_toggle bus led on d) h,
            led_toggle-bits bus pins led on place i d h,
          )
          (ground (arith, bit_at-off i))

    -- Stopping the timer does not reach the LEDs.
    bytes-scheduler_disable :
        (place : ℕ) (w : World platform)
        → pins.byte place (scheduler_disable bus w.scheduler w.device).1 ≡ pins.byte place w.device
    unfolding scheduler_disable timer_disable_timer
    bytes-scheduler_disable place w =
        let s = update-IsSame bus laws tcsr0 _ w.device (λ e. cc) (λ e. cc) in s.bytes place

    -- On a board: whenever the function of a task returns, the LED that it lights (UF 1 or UF 2 by
    -- the signal for 5 ms, block 1 for 1000 ms, none for the others) is off, and all other bits of
    -- the data register are as before.
    pub call-leds :
        (e : Entry) (w w' : World platform) (place i : ℕ)
        → call platform e w ≡ some w'
        → i < 8
        → bit_at i (pins.byte place w'.device)
          ≡ (if lit e w place i then 0 else bit_at i (pins.byte place w.device))
    unfolding run_10ms
    call-leds e w w' place i h lt = go e (call-IsAfter platform e w w' h)
      where
        go :
            (e : Entry)
            → IsAfter platform e w w'
            → bit_at i (pins.byte place w'.device)
              ≡ (if lit e w place i then 0 else bit_at i (pins.byte place w.device))
        go task_5ms e =
            rw (e, signal-bs_math w.scenario)
              (blinked (flag_led (is_set w.scenario.signal)) place i w.device lt)
        go task_10ms e = rw e refl
        go task_100ms (s, e) = rw e refl
        go task_1000ms e = rw e (
            blinked led_block_1 place i _ lt
            ∙ ap (λ (b : ℕ). if drives led_block_1 place i then 0 else bit_at i b)
                (bytes-scheduler_disable place w))
