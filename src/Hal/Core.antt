-- ===== src/Hal/Core.antt =====
-- firmware/emsa5/hal/core.c, core.h, csr.h and heartbeat.c: the CSRs that the firmware changes,
-- busy waiting, and the heartbeat counter.
pub mod Waiting
use trace_fs.Base.{
  ℕ, zero, suc, ◌+◌, ◌-◌, bit_and, bit_or, bit_not, u32, ◌==◌, if◌then◌else◌, Option, none, some,
}

pub record Csrs : Type 0 where
  pub mstatus : ℕ
  pub mie : ℕ

-- `csrrc` and `csrrs`: the bits of the operand are cleared or set in the CSR.
abbrev pub csr_clear_bits : ℕ → ℕ → ℕ
csr_clear_bits v rs = bit_and v (bit_not rs)

abbrev pub csr_set_bits : ℕ → ℕ → ℕ
csr_set_bits v rs = bit_or v rs

unfoldable pub core_disable_interrupts : Csrs → Csrs
core_disable_interrupts c = record c { mstatus = csr_clear_bits c.mstatus 0x8 }

unfoldable pub core_disable_external_interrupt : Csrs → Csrs
core_disable_external_interrupt c = record c { mie = csr_clear_bits c.mie 0x800 }

unfoldable pub core_disable_timer_interrupt : Csrs → Csrs
core_disable_timer_interrupt c = record c { mie = csr_clear_bits c.mie 0x80 }

unfoldable pub core_enable_interrupts : Csrs → Csrs
core_enable_interrupts c = record c { mstatus = csr_set_bits c.mstatus 0x8 }

unfoldable pub core_enable_external_interrupt : Csrs → Csrs
core_enable_external_interrupt c = record c { mie = csr_set_bits c.mie 0x800 }

unfoldable pub core_enable_timer_interrupt : Csrs → Csrs
core_enable_timer_interrupt c = record c { mie = csr_set_bits c.mie 0x80 }

-- `while (cycles--) { }` on fuel: the rounds that it makes, or `none` if the fuel ran out.
unfoldable pub core_busy_waiting : ℕ → ℕ → Option ℕ
core_busy_waiting zero cycles = none
core_busy_waiting (suc fuel) cycles =
    let rest = core_busy_waiting fuel (cycles - 1) in
    if cycles == 0 then some 0 else elim rest [ none ↦ none | some n ↦ some (n + 1) ]

unfoldable pub heartbeat_init : ℕ
heartbeat_init = 0

unfoldable pub heartbeat_beat : ℕ → ℕ
heartbeat_beat counter = u32 (counter + 1)
