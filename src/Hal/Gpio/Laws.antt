-- ===== src/Hal/Gpio/Laws.antt =====
-- What the driver of the GPIO controller makes of its registers (PG144, one channel).
use trace_fs.Base.{
  ℕ, ◌+◌, ◌*◌, ◌%◌, ◌^◌, ◌≡◌, ◌<◌, refl, arith, bit_at, true, ◌==◌, if◌then◌else◌, Bool-cases, inl,
  inr,
}
use trace_fs.Hal.Bus.{Bus, Reg, gpio, peripheral, offset, gpio_data, gpio_tri, gier, ipisr, ipier}
use trace_fs.Hal.Gpio.{gpio_init, gpio_acknowledge_interrupt, gpio_enable_interrupt}

-- What a register holds behind a store of v over `old`: the status toggles where a 1 is written,
-- and the enable registers have one bit each.
abbrev pub written : Reg → ℕ → ℕ → ℕ
written ipisr v old = (old + v) % 2
written ipier v old = v % 2
written gier v old = bit_at 31 v * 2 ^ 31
written _ v old = v

-- The same for register r, behind a store to register q.
abbrev pub put : Reg → ℕ → Reg → ℕ → ℕ
put q v r old = if offset r == offset q then written q v old else old

pub record IsGpioPort (bus : Bus) : Type 0 where
  pub value : Reg → bus.Device → ℕ
  pub load_ipisr : (d : bus.Device) → bus.load ipisr d ≡ (value ipisr d, d)
  pub status_lt : (d : bus.Device) → value ipisr d < 2
  pub store_lem :
      (r q : Reg) (v : ℕ) (d : bus.Device)
      → peripheral r ≡ gpio
      → peripheral q ≡ gpio
      → value r (bus.store q v d) ≡ put q v r (value r d)

module _ (bus : Bus) (laws : IsGpioPort bus) where
  open laws use {value, load_ipisr, status_lt, store_lem}

  abbrev cleared : Reg → ℕ → ℕ
  cleared r old = if offset r == offset ipisr then 0 else old

  gpio_acknowledge_interrupt-value :
      (r : Reg) (d : bus.Device)
      → peripheral r ≡ gpio
      → (offset r == offset ipisr ≡ true → value r d ≡ value ipisr d)
      → value r (gpio_acknowledge_interrupt bus d) ≡ cleared r (value r d)
  unfolding gpio_acknowledge_interrupt
  gpio_acknowledge_interrupt-value r d h same = elim (Bool-cases (value ipisr d == 0)) [
    | inl clear ↦ rw (load_ipisr, clear) (ground (arith, same))
    | inr set ↦
        rw (load_ipisr, set, store_lem r ipisr 1 d h refl) (ground (arith, same, status_lt d))
  ]

  -- For every state of the controller: behind `gpio_init` the outputs are low, the pins of the mask
  -- 0xf000 are inputs, the channel's interrupt is enabled, also globally, and no interrupt is
  -- pending, whether one was pending before or not.
  pub gpio_init-ready :
      (d : bus.Device)
      → let d' = gpio_init bus d in
        (value gpio_data d' ≡ 0)
        × (value gpio_tri d' ≡ 0xf000)
        × (value gier d' ≡ 2 ^ 31)
        × (value ipier d' ≡ 1)
        × (value ipisr d' ≡ 0)
  unfolding gpio_init gpio_enable_interrupt
  gpio_init-ready d = (
    last gpio_data refl (λ e. absurd (ground arith)),
    last gpio_tri refl (λ e. absurd (ground arith)),
    last gier refl (λ e. absurd (ground arith)),
    last ipier refl (λ e. absurd (ground arith)),
    last ipisr refl (λ e. refl),
  )
    where
      stopped : bus.Device
      stopped = bus.store ipier 0 (bus.store gier 0 (bus.store gpio_data 0 d))

      last :
          (r : Reg)
          → peripheral r ≡ gpio
          → (offset r == offset ipisr ≡ true → value r stopped ≡ value ipisr stopped)
          → value r (gpio_init bus d)
            ≡ put ipier 1 r (
                put gier 0x8000_0000 r (
                  put gpio_tri 0xf000 r
                    (cleared r (put ipier 0 r (put gier 0 r (put gpio_data 0 r (value r d)))))))
      last r h same =
          rw
            (
              store_lem r ipier 1 _ h refl,
              store_lem r gier 0x8000_0000 _ h refl,
              store_lem r gpio_tri 0xf000 _ h refl,
              gpio_acknowledge_interrupt-value r stopped h same,
              store_lem r ipier 0 _ h refl,
              store_lem r gier 0 _ h refl,
              store_lem r gpio_data 0 _ h refl,
            )
            refl
