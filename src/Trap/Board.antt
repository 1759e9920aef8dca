-- ===== src/Trap/Board.antt =====
-- What the trap handler relies on of the board, and what serving one interrupt makes of it.
use trace_fs.Base.{ℕ, ◌≡◌, ◌≢◌, refl, ◌∙◌, ◌==◌, Bool-cases, inl, inr}
use trace_fs.Hal.Bus.{Bus, Reg, intc, peripheral, gpio_data, ipisr, tcsr0, tcsr1}
use trace_fs.Hal.Irq.Laws.{IsIntc}
use trace_fs.Hal.Timer.{timer_0, timer_1, timer_acknowledge_timer}
use trace_fs.Hal.Gpio.{gpio_acknowledge_interrupt}
use trace_fs.Hal.Led.Laws.{IsGpioData}

-- An interrupt controller and the bytes of a data register, which the registers of the other
-- peripherals leave alone; no interrupt arrives while the handler runs.
pub record IsBoard (bus : Bus) : Type 0 where
  pub controller : IsIntc bus
  pub pins : IsGpioData bus
  pub raised_load :
      (r : Reg) (d : bus.Device)
      → peripheral r ≢ intc
      → controller.raised (bus.load r d).1 ≡ controller.raised d
  pub raised_store :
      (r : Reg) (v : ℕ) (d : bus.Device)
      → peripheral r ≢ intc
      → controller.raised (bus.store r v d) ≡ controller.raised d
  pub raised_byte :
      (p v : ℕ) (d : bus.Device)
      → controller.raised (bus.store_byte gpio_data p v d) ≡ controller.raised d
  pub enabled_load :
      (r : Reg) (d : bus.Device)
      → peripheral r ≢ intc
      → controller.enabled (bus.load r d).1 ≡ controller.enabled d
  pub enabled_store :
      (r : Reg) (v : ℕ) (d : bus.Device)
      → peripheral r ≢ intc
      → controller.enabled (bus.store r v d) ≡ controller.enabled d
  pub enabled_byte :
      (p v : ℕ) (d : bus.Device)
      → controller.enabled (bus.store_byte gpio_data p v d) ≡ controller.enabled d
  pub byte_load :
      (p : ℕ) (r : Reg) (d : bus.Device)
      → r ≢ gpio_data
      → pins.byte p (bus.load r d).1 ≡ pins.byte p d
  pub byte_store :
      (p : ℕ) (r : Reg) (v : ℕ) (d : bus.Device)
      → r ≢ gpio_data
      → pins.byte p (bus.store r v d) ≡ pins.byte p d

module _ (bus : Bus) (laws : IsBoard bus) where
  open laws use {controller, pins}

  -- Nothing that the handler looks at has changed.
  pub record IsSame (d d' : bus.Device) : Type 0 where
    pub raised : controller.raised d' ≡ controller.raised d
    pub enabled : controller.enabled d' ≡ controller.enabled d
    pub bytes : (p : ℕ) → pins.byte p d' ≡ pins.byte p d

  pub IsSame-refl : (d : bus.Device) → IsSame d d
  IsSame-refl d = record { raised = refl; enabled = refl; bytes = λ p. refl }

  load-IsSame :
      (r : Reg) (d : bus.Device) → peripheral r ≢ intc → r ≢ gpio_data → IsSame d (bus.load r d).1
  load-IsSame r d h ne = record {
    raised = laws.raised_load r d h;
    enabled = laws.enabled_load r d h;
    bytes = λ p. laws.byte_load p r d ne;
  }

  store-IsSame :
      (r : Reg) (v : ℕ) (d : bus.Device)
      → peripheral r ≢ intc
      → r ≢ gpio_data
      → IsSame d (bus.store r v d)
  store-IsSame r v d h ne = record {
    raised = laws.raised_store r v d h;
    enabled = laws.enabled_store r v d h;
    bytes = λ p. laws.byte_store p r v d ne;
  }

  IsSame-trans : (d d' d'' : bus.Device) → IsSame d d' → IsSame d' d'' → IsSame d d''
  IsSame-trans d d' d'' s t = record {
    raised = t.raised ∙ s.raised;
    enabled = t.enabled ∙ s.enabled;
    bytes = λ p. t.bytes p ∙ s.bytes p;
  }

  pub update-IsSame :
      (r : Reg) (v : ℕ) (d : bus.Device)
      → peripheral r ≢ intc
      → r ≢ gpio_data
      → IsSame d (bus.store r v (bus.load r d).1)
  update-IsSame r v d h ne =
      IsSame-trans d (bus.load r d).1 (bus.store r v (bus.load r d).1) (load-IsSame r d h ne)
        (store-IsSame r v (bus.load r d).1 h ne)

  pub timers-IsSame :
      (d : bus.Device)
      → IsSame d (timer_acknowledge_timer bus timer_1 (timer_acknowledge_timer bus timer_0 d))
  unfolding timer_acknowledge_timer
  timers-IsSame d =
      IsSame-trans d _ _ (update-IsSame tcsr0 _ d (λ e. cc) (λ e. cc))
        (update-IsSame tcsr1 _ _ (λ e. cc) (λ e. cc))

  pub gpio-IsSame : (d : bus.Device) → IsSame d (gpio_acknowledge_interrupt bus d)
  unfolding gpio_acknowledge_interrupt
  gpio-IsSame d = elim (Bool-cases ((bus.load ipisr d).0 == 0)) [
    | inl clear ↦ rw clear (load-IsSame ipisr d (λ e. cc) (λ e. cc))
    | inr set ↦ rw set (update-IsSame ipisr 1 d (λ e. cc) (λ e. cc))
  ]
