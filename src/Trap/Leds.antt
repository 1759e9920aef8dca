-- ===== src/Trap/Leds.antt =====
-- The LEDs and the interrupt controller behind a trap.
use trace_fs.Base.{
  ℕ, zero, suc, ◌<◌, ◌≡◌, ap, arith, bit_and, bit_at, Bool, false, ◌&&◌, ltb, ◌==◌, if◌then◌else◌,
  Bool-cases, inl, inr,
}
use trace_fs.Hal.Bus.{Bus}
use trace_fs.Hal.Core.{core_disable_interrupts}
use trace_fs.Hal.Irq.{Irq, irq_0, irq_1, irq_2, irq_3, irq_is_pending_interrupt}
use trace_fs.Hal.Irq.Laws.{pending, pending_lem}
use trace_fs.Hal.Led.{led_1}
use trace_fs.Trap.{
  Firmware, serve_timer, serve_led, serve_gpio, serve_all, handle_trap, handle_timer_interrupt,
  handle_gpio_interrupt,
}
use trace_fs.Trap.Board.{IsBoard, timers-IsSame, gpio-IsSame, IsSame-refl}
use trace_fs.Trap.Served.{IsServed, served-IsServed, unserved-IsServed, led_of}

-- The interrupt that the bit of an LED shows.
abbrev pub irq_at : ℕ → Irq
irq_at zero = irq_0
irq_at (suc zero) = irq_1
irq_at (suc (suc zero)) = irq_2
irq_at (suc (suc (suc i))) = irq_3

-- What four updates, one for each interrupt, make of a bit.
by_index :
    (low : Bool) (i b : ℕ) (p : Irq → Bool)
    → (if low && i == 3
        then (if p irq_3 then 1 else 0)
        else if low && i == 2
        then (if p irq_2 then 1 else 0)
        else if low && i == 1
        then (if p irq_1 then 1 else 0)
        else if low && i == 0
        then (if p irq_0 then 1 else 0)
        else b)
      ≡ (if low && ltb i 4 then (if p (irq_at i) then 1 else 0) else b)
by_index low zero b p = ground arith
by_index low (suc zero) b p = ground arith
by_index low (suc (suc zero)) b p = ground arith
by_index low (suc (suc (suc i))) b p = ground arith

module _ (bus : Bus) (laws : IsBoard bus) where
  open laws use {controller, pins}

  -- The test of an interrupt keeps the device.
  reading : (irq : Irq) (d : bus.Device) → (irq_is_pending_interrupt bus irq d).1 ≡ d
  reading irq d = ap (λ (r : Bool × bus.Device). r.1) (pending_lem bus controller irq d)

  serve_led-IsServed :
      (irq : Irq) (s : Firmware bus)
      → IsServed bus laws irq s.device (serve_led bus irq (led_of irq) s).device
  unfolding serve_led
  serve_led-IsServed irq s = elim (Bool-cases (pending bus irq s.device)) [
    | inl p ↦
        rw (p, reading irq s.device)
          (served-IsServed bus laws irq s.device s.device p (IsSame-refl bus laws s.device))
    | inr p ↦ rw (p, reading irq s.device) (unserved-IsServed bus laws irq s.device p)
  ]

  serve_timer-IsServed :
      (s : Firmware bus) → IsServed bus laws irq_0 s.device (serve_timer bus s).device
  unfolding serve_timer handle_timer_interrupt
  serve_timer-IsServed s = elim (Bool-cases (pending bus irq_0 s.device)) [
    | inl p ↦
        rw (p, reading irq_0 s.device)
          (served-IsServed bus laws irq_0 s.device _ p (timers-IsSame bus laws s.device))
    | inr p ↦ rw (p, reading irq_0 s.device) (unserved-IsServed bus laws irq_0 s.device p)
  ]

  serve_gpio-IsServed :
      (s : Firmware bus) → IsServed bus laws irq_2 s.device (serve_gpio bus s).device
  unfolding serve_gpio handle_gpio_interrupt
  serve_gpio-IsServed s = elim (Bool-cases (pending bus irq_2 s.device)) [
    | inl p ↦
        rw (p, reading irq_2 s.device)
          (served-IsServed bus laws irq_2 s.device _ p (gpio-IsSame bus laws s.device))
    | inr p ↦ rw (p, reading irq_2 s.device) (unserved-IsServed bus laws irq_2 s.device p)
  ]

  -- For an interrupt (bit 31 of mcause is set) on a board whose interrupts stay as they are while
  -- the handler runs: behind the trap LED_0 to LED_3, the bits 0 to 3 of byte 0 of the data register,
  -- show which of the interrupts 0 to 3 were pending, all other bits of the register are kept, and
  -- no interrupt is pending any more.
  pub handle_trap-shows :
      (mcause mepc : ℕ) (s : Firmware bus) (j : Irq) (place i : ℕ)
      → (bit_and mcause 0x8000_0000 == 0) ≡ false
      → i < 8
      → let d' = (handle_trap bus mcause mepc s).1.device in
        (bit_at i (pins.byte place d') ≡ (
          if place == 0 && ltb i 4
          then (if pending bus (irq_at i) s.device then 1 else 0)
          else bit_at i (pins.byte place s.device)))
        × (pending bus j d' ≡ false)
  unfolding handle_trap serve_all
  handle_trap-shows mcause mepc s j place i h lt =
      let s0 = record s { csrs = core_disable_interrupts s.csrs } in
      let s1 = serve_timer bus s0 in
      let s2 = serve_led bus irq_1 led_1 s1 in
      let s3 = serve_gpio bus s2 in
      let first = serve_timer-IsServed s0 in
      let second = serve_led-IsServed irq_1 s1 in
      let third = serve_gpio-IsServed s2 in
      let fourth = serve_led-IsServed irq_3 s3 in
      rw h (
        rw
            (
              fourth.shown place i lt,
              third.shown place i lt,
              second.shown place i lt,
              first.shown place i lt,
              third.answered irq_3,
              second.answered irq_3,
              first.answered irq_3,
              second.answered irq_2,
              first.answered irq_2,
              first.answered irq_1,
            )
            (by_index (place == 0) i (bit_at i (pins.byte place s.device))
              (λ (j : Irq). pending bus j s.device)),
        rw (fourth.answered j, third.answered j, second.answered j, first.answered j)
            (ground arith),
      )
