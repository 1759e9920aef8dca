-- ===== src/Trap/Interruptible.antt =====
-- Traps at the accesses of the code that they interrupt: a bus on which any number of traps happen
-- before each volatile access. The drivers, which are written over any bus, run on it as they are.
use trace_fs.Base.{ℕ, List, [], ◌∷◌}
use trace_fs.Hal.Bus.{Bus, Reg}
use trace_fs.Trap.{Firmware, handle_trap}

-- A trap with its `mcause` and `mepc`, before which the peripherals change.
pub record Arrival (bus : Bus) : Type 0 where
  pub mcause : ℕ
  pub mepc : ℕ
  pub arrive : bus.Device → bus.Device

-- The firmware's state, and the traps that are to come before each of the next accesses.
pub record Running (bus : Bus) : Type 0 where
  pub firmware : Firmware bus
  pub due : List (List (Arrival bus))

module _ (bus : Bus) where
  abbrev pub take_trap : Arrival bus → Firmware bus → Firmware bus
  take_trap a f = (handle_trap bus a.mcause a.mepc (record f { device = a.arrive f.device })).1

  unfoldable pub take_traps : List (Arrival bus) → Firmware bus → Firmware bus
  take_traps [] f = f
  take_traps (a ∷ rest) f = take_traps rest (take_trap a f)

  abbrev pub interrupt_by : List (List (Arrival bus)) → Firmware bus → Running bus
  interrupt_by [] f = record { firmware = f; due = [] }
  interrupt_by (first ∷ due) f = record { firmware = take_traps first f; due = due }

  -- The traps before the next access.
  abbrev pub interrupt : Running bus → Running bus
  interrupt s = interrupt_by s.due s.firmware

  -- The traps before the next two accesses.
  abbrev pub interrupt_twice : Running bus → Running bus
  interrupt_twice s = interrupt (interrupt s)

  abbrev pub with_device : bus.Device → Running bus → Running bus
  with_device d s = record s { firmware = record s.firmware { device = d } }

  abbrev pub load_behind : Reg → Running bus → ℕ × Running bus
  load_behind r s = let (v, d) = bus.load r s.firmware.device in (v, with_device d s)

  abbrev pub load_byte_behind : Reg → ℕ → Running bus → ℕ × Running bus
  load_byte_behind r p s = let (v, d) = bus.load_byte r p s.firmware.device in (v, with_device d s)

  abbrev pub interruptible : Bus
  interruptible = record {
    Device = Running bus;
    load = λ r s. load_behind r (interrupt s);
    store = λ r v s. let s = interrupt s in with_device (bus.store r v s.firmware.device) s;
    load_byte = λ r p s. load_byte_behind r p (interrupt s);
    store_byte =
        λ r p v s. let s = interrupt s in with_device (bus.store_byte r p v s.firmware.device) s;
  }
