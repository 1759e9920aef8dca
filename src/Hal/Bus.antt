-- ===== src/Hal/Bus.antt =====
-- The memory-mapped registers that the drivers access (hal/axi_timer.h, hal/axi_intc.h,
-- hal/axi_gpio.h), and the bus they are accessed through. The peripherals are not code of the
-- repository: a `Bus` is a parameter of the drivers, and a read may change the device.
use trace_fs.Base.{ℕ, ◌+◌, ◌*◌}

-- The three peripherals, by their sections in the memory map.
pub data Peripheral : Type 0 where
  timer intc gpio : Peripheral

pub data Reg : Type 0 where
  tcsr0 tlr0 tcr0 tcsr1 tlr1 tcr1 : Reg
  isr ipr ier iar sie cie ivr mer imr ilr : Reg
  gpio_data gpio_tri gier ipisr ipier : Reg

abbrev pub peripheral : Reg → Peripheral
peripheral tcsr0 = timer
peripheral tlr0 = timer
peripheral tcr0 = timer
peripheral tcsr1 = timer
peripheral tlr1 = timer
peripheral tcr1 = timer
peripheral isr = intc
peripheral ipr = intc
peripheral ier = intc
peripheral iar = intc
peripheral sie = intc
peripheral cie = intc
peripheral ivr = intc
peripheral mer = intc
peripheral imr = intc
peripheral ilr = intc
peripheral gpio_data = gpio
peripheral gpio_tri = gpio
peripheral gier = gpio
peripheral ipisr = gpio
peripheral ipier = gpio

-- The offset of a register in the struct of its peripheral, in bytes: the 32-bit fields before it.
abbrev pub offset : Reg → ℕ
offset tcsr0 = 4 * 0
offset tlr0 = 4 * 1
offset tcr0 = 4 * 2
offset tcsr1 = 4 * 4
offset tlr1 = 4 * 5
offset tcr1 = 4 * 6
offset isr = 4 * 0
offset ipr = 4 * 1
offset ier = 4 * 2
offset iar = 4 * 3
offset sie = 4 * 4
offset cie = 4 * 5
offset ivr = 4 * 6
offset mer = 4 * 7
offset imr = 4 * 8
offset ilr = 4 * 9
offset gpio_data = 4 * 0
offset gpio_tri = 4 * 1
offset gier = 4 * (2 + 69)
offset ipisr = 4 * (2 + 69 + 1)
offset ipier = 4 * (2 + 69 + 1 + 1 + 1)

-- Volatile accesses of 32 bits, and of the byte at a place (0 the lowest) of a register.
pub record Bus : Type 1 where
  pub Device : Type 0
  pub load : Reg → Device → ℕ × Device
  pub store : Reg → ℕ → Device → Device
  pub load_byte : Reg → ℕ → Device → ℕ × Device
  pub store_byte : Reg → ℕ → ℕ → Device → Device
