-- ===== src/Trap/Dispatch.antt =====
-- What a trap makes of the firmware's globals, for every device.
use trace_fs.Base.{
  ℕ, bit_and, Bool, true, ◌⊎◌, false, ◌==◌, if◌then◌else◌, ◌≡◌, refl, Bool-cases, inl, inr, ◌∙◌, ap,
}
use trace_fs.Hal.Bus.{Bus}
use trace_fs.Hal.Core.{heartbeat_beat, core_disable_interrupts}
use trace_fs.Hal.Irq.{irq_0, irq_1, irq_2, irq_is_pending_interrupt}
use trace_fs.Hal.Led.{led_1}
use trace_fs.Scheduler.{scheduler_next}
use trace_fs.Asw.Minmax.{Vars, isr2_minmax}
use trace_fs.Trap.{
  Firmware, serve_timer, serve_led, serve_gpio, serve_all, handle_trap, handle_timer_interrupt,
  handle_gpio_interrupt,
}

module _ (bus : Bus) where
  abbrev pub timer_pending : Firmware bus → Bool
  timer_pending s = (irq_is_pending_interrupt bus irq_0 s.device).0

  -- The GPIO interrupt is looked at behind the timer and IRQ_1.
  unfoldable pub gpio_pending : Firmware bus → Bool
  unfolding serve_timer serve_led
  gpio_pending s =
      (irq_is_pending_interrupt bus irq_2 (serve_led bus irq_1 led_1 (serve_timer bus s)).device).0

  serve_timer-globals :
      (s : Firmware bus)
      → let s' = serve_timer bus s in
        (s'.heartbeat ≡ (if timer_pending s then heartbeat_beat s.heartbeat else s.heartbeat))
        × (s'.scheduler ≡ (if timer_pending s then scheduler_next s.scheduler else s.scheduler))
        × (s'.vars ≡ s.vars)
  unfolding serve_timer handle_timer_interrupt
  serve_timer-globals s = elim (Bool-cases (timer_pending s)) [
    | inl p ↦ rw p (refl, refl, refl)
    | inr p ↦ rw p (refl, refl, refl)
  ]

  -- The handler's work on the device does not read the CSRs.
  serve_timer-device :
      (s : Firmware bus)
      → (serve_timer bus (record s { csrs = core_disable_interrupts s.csrs })).device
        ≡ (serve_timer bus s).device
  unfolding serve_timer handle_timer_interrupt
  serve_timer-device s = elim (Bool-cases (timer_pending s)) [
    | inl p ↦ rw p refl
    | inr p ↦ rw p refl
  ]

  serve_gpio-globals :
      (s : Firmware bus)
      → let s' = serve_gpio bus s in
        let pending = (irq_is_pending_interrupt bus irq_2 s.device).0 in
        (s'.heartbeat ≡ s.heartbeat)
        × (s'.scheduler ≡ s.scheduler)
        × (s'.vars ≡ (if pending then isr2_minmax s.vars else s.vars))
  unfolding serve_gpio handle_gpio_interrupt
  serve_gpio-globals s = elim (Bool-cases (irq_is_pending_interrupt bus irq_2 s.device).0) [
    | inl p ↦ rw p (refl, refl, refl)
    | inr p ↦ rw p (refl, refl, refl)
  ]

  -- For every device and every interrupt (bit 31 of mcause is set): the trap returns to mepc, the
  -- heartbeat and the scheduler advance exactly if the timer interrupt is pending, and the
  -- application's routine runs exactly if the GPIO interrupt is pending when it is tested.
  pub handle_trap-interrupt :
      (mcause mepc : ℕ) (s : Firmware bus)
      → (bit_and mcause 0x8000_0000 == 0) ≡ false
      → let (mepc', s') = handle_trap bus mcause mepc s in
        (mepc' ≡ mepc)
        × (s'.heartbeat ≡ (if timer_pending s then heartbeat_beat s.heartbeat else s.heartbeat))
        × (s'.scheduler ≡ (if timer_pending s then scheduler_next s.scheduler else s.scheduler))
        × (s'.vars ≡ (if gpio_pending s then isr2_minmax s.vars else s.vars))
  unfolding handle_trap serve_all serve_led gpio_pending
  handle_trap-interrupt mcause mepc s h =
      let s0 = record s { csrs = core_disable_interrupts s.csrs } in
      let first = serve_timer-globals s0 in
      let s1 = serve_led bus irq_1 led_1 (serve_timer bus s0) in
      let second = serve_gpio-globals s1 in
      rw h (
        refl,
        second.0 ∙ first.0,
        second.1 ∙ first.1,
        second.2
            ∙ ap
                (λ (v : Vars).
                  if (irq_is_pending_interrupt bus irq_2 s1.device).0 then isr2_minmax v else v)
                first.2
            ∙ ap (λ (d : bus.Device). if gpio_after d then isr2_minmax s.vars else s.vars)
                (serve_timer-device s),
      )
    where
      gpio_after : bus.Device → Bool
      gpio_after d =
          (irq_is_pending_interrupt bus irq_2
            (serve_led bus irq_1 led_1 (record s { device = d })).device).0

  -- A trap is a tick of the scheduler or leaves it alone.
  pub handle_trap-scheduler :
      (mcause mepc : ℕ) (f : Firmware bus)
      → let s' = (handle_trap bus mcause mepc f).1.scheduler in
        (s' ≡ f.scheduler) ⊎ (s' ≡ scheduler_next f.scheduler)
  unfolding handle_trap
  handle_trap-scheduler mcause mepc f = elim (Bool-cases (bit_and mcause 0x8000_0000 == 0)) [
    | inl exception ↦ rw exception (inl refl)
    | inr interrupt ↦ by_timer (timer_pending f) (handle_trap-interrupt mcause mepc f interrupt).2
  ]
    where
      by_timer :
          (pending : Bool)
          → (handle_trap bus mcause mepc f).1.scheduler
            ≡ (if pending then scheduler_next f.scheduler else f.scheduler)
          → ((handle_trap bus mcause mepc f).1.scheduler ≡ f.scheduler)
            ⊎ ((handle_trap bus mcause mepc f).1.scheduler ≡ scheduler_next f.scheduler)
      by_timer true e = inr e
      by_timer false e = inl e
