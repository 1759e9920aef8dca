-- ===== src/Hal/Irq.antt =====
-- firmware/emsa5/hal/irq.c.
pub mod Laws
use trace_fs.Base.{ℕ, bit_and, bit_or, bit_not, ◌<<<◌, Bool, true, false, ◌==◌, if◌then◌else◌}
use trace_fs.Hal.Bus.{Bus, mer, ier, iar, ipr}
use trace_fs.Hal.Core.{Csrs, core_enable_external_interrupt}

pub data Irq : Type 0 where
  irq_0 irq_1 irq_2 irq_3 : Irq

abbrev pub irq_code : Irq → ℕ
irq_code irq_0 = 0
irq_code irq_1 = 1
irq_code irq_2 = 2
irq_code irq_3 = 3

-- `1 << irq`.
abbrev pub irq_mask : Irq → ℕ
irq_mask irq = 1 <<< irq_code irq

module _ (bus : Bus) where
  open bus use {Device, load, store}

  unfoldable pub irq_enable_all_interrupts : Device → Device
  irq_enable_all_interrupts d = store ier 0x0f d

  unfoldable pub irq_disable_all_interrupts : Device → Device
  irq_disable_all_interrupts d = store ier 0 d

  -- It also enables the external interrupt in the `mie` CSR.
  unfoldable pub irq_init : Csrs → Device → Csrs × Device
  unfolding irq_enable_all_interrupts
  irq_init c d =
      let d = store mer 1 d in
      let d = store mer 3 d in
      let d = irq_enable_all_interrupts d in (core_enable_external_interrupt c, d)

  unfoldable pub irq_enable_interrupt : Irq → Device → Device
  irq_enable_interrupt irq d = let (v, d) = load ier d in store ier (bit_or v (irq_mask irq)) d

  unfoldable pub irq_disable_interrupt : Irq → Device → Device
  irq_disable_interrupt irq d =
      let mask = bit_and (bit_not (irq_mask irq)) 0xf in
      let (v, d) = load ier d in store ier (bit_and v mask) d

  unfoldable pub irq_acknowledge_interrupt : Irq → Device → Device
  irq_acknowledge_interrupt irq d = store iar (irq_mask irq) d

  unfoldable pub irq_is_pending_interrupt : Irq → Device → Bool × Device
  irq_is_pending_interrupt irq d =
      let (v, d) = load ipr d in (if bit_and v (irq_mask irq) == 0 then false else true, d)
