-- ===== src/Hal/Gpio.antt =====
-- firmware/emsa5/hal/gpio.c.
pub mod Laws
use trace_fs.Base.{◌==◌, if◌then◌else◌}
use trace_fs.Hal.Bus.{Bus, gpio_data, gpio_tri, gier, ipisr, ipier}

module _ (bus : Bus) where
  open bus use {Device, load, store}

  -- The status register toggles on a write, hence the test.
  unfoldable pub gpio_acknowledge_interrupt : Device → Device
  gpio_acknowledge_interrupt d = let (v, d) = load ipisr d in if v == 0 then d else store ipisr 1 d

  unfoldable pub gpio_enable_interrupt : Device → Device
  gpio_enable_interrupt d = let d = store gier 0x8000_0000 d in store ipier 1 d

  unfoldable pub gpio_disable_interrupt : Device → Device
  gpio_disable_interrupt d = store ipier 0 d

  unfoldable pub gpio_init : Device → Device
  unfolding gpio_acknowledge_interrupt gpio_enable_interrupt
  gpio_init d =
      let d = store gpio_data 0 d in
      let d = store gier 0 d in
      let d = store ipier 0 d in
      let d = gpio_acknowledge_interrupt d in
      let d = store gpio_tri 0xf000 d in gpio_enable_interrupt d
