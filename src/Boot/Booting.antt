-- ===== src/Boot/Booting.antt =====
-- Traps while the firmware starts: what holds at each stage of the start.
use trace_fs.Base.{ℕ, ◌+◌, ◌≤◌, ◌<◌, length, ◌≡◌, inl, inr, arith, List, [], ◌∷◌, bit_at}
use trace_fs.Bits.{bit_or_bit}
use trace_fs.Hal.Bus.{Bus, Reg, tcsr0, tlr0}
use trace_fs.Hal.Core.{core_enable_interrupts}
use trace_fs.Hal.Timer.{timer_0, reload_value, periodic_bits, timer_configure_periodic_timer}
use trace_fs.Scheduler.{Scheduler, num_tasks, scheduler_next, scheduler_enable}
use trace_fs.Boot.Slots.{ResetTo, set-ResetTo, scheduler_next-ResetTo}
use trace_fs.Trap.{Firmware, handle_trap}
use trace_fs.Trap.Dispatch.{handle_trap-scheduler}
use trace_fs.Trap.Interruptible.{
  Arrival, Running, take_trap, take_traps, interrupt_by, interrupt, interruptible,
}
use trace_fs.Boot.{hw_init, beat}
use trace_fs.Boot.Stages.{
  boot_front, reset_ticks, reset_slot, enable, stage, scheduler_init_interrupted, boot_interrupted,
}

module _ (bus : Bus) where
  -- The first k slots are reset, and the core has its interrupts enabled.
  pub record IsPart (k : ℕ) (f : Firmware bus) : Type 0 where
    pub reset : ResetTo k f.scheduler.queue
    pub enabled : bit_at 3 f.csrs.mstatus ≡ 1

  -- The traps that are to come.
  abbrev pub traps_of : List (List (Arrival bus)) → ℕ
  traps_of [] = 0
  traps_of (first ∷ due) = length first + traps_of due

  -- The first k slots are reset, the ticks with a tick for each trap to come are at most n, and w
  -- traps at most are to come.
  pub record IsBooting (k n w : ℕ) (s : Running bus) : Type 0 where
    pub part : IsPart k s.firmware
    pub ticks : s.firmware.scheduler.ticks + traps_of s.due ≤ n
    pub traps : traps_of s.due ≤ w

  handle_trap-enabled :
      (mcause mepc : ℕ) (f : Firmware bus)
      → bit_at 3 (handle_trap bus mcause mepc f).1.csrs.mstatus ≡ 1
  unfolding handle_trap core_enable_interrupts
  handle_trap-enabled mcause mepc f = omega (arith, bit_or_bit 3 _)

  scheduler_next-ticks : (s : Scheduler) → (scheduler_next s).ticks ≤ s.ticks + 1
  unfolding scheduler_next
  scheduler_next-ticks s = omega arith

  take_trap-IsPart :
      (k : ℕ) (a : Arrival bus) (f : Firmware bus) → IsPart k f → IsPart k (take_trap bus a f)
  take_trap-IsPart k a f part = record {
    reset =
        elim (handle_trap-scheduler bus a.mcause a.mepc (record f { device = a.arrive f.device })) [
          | inl same ↦ rw same part.reset
          | inr next ↦ rw next (scheduler_next-ResetTo k f.scheduler part.reset)
        ];
    enabled = handle_trap-enabled a.mcause a.mepc (record f { device = a.arrive f.device });
  }

  take_trap-ticks :
      (a : Arrival bus) (f : Firmware bus)
      → (take_trap bus a f).scheduler.ticks ≤ f.scheduler.ticks + 1
  take_trap-ticks a f =
      elim (handle_trap-scheduler bus a.mcause a.mepc (record f { device = a.arrive f.device })) [
        | inl same ↦ rw same (omega arith)
        | inr next ↦ rw next (scheduler_next-ticks f.scheduler)
      ]

  take_traps-IsPart :
      (k : ℕ) (arrivals : List (Arrival bus)) (f : Firmware bus)
      → IsPart k f
      → IsPart k (take_traps bus arrivals f)
        × ((take_traps bus arrivals f).scheduler.ticks ≤ f.scheduler.ticks + length arrivals)
  unfolding take_traps
  take_traps-IsPart k [] f part = (part, omega arith)
  take_traps-IsPart k (a ∷ rest) f part =
      let (part', ticks) =
        take_traps-IsPart k rest (take_trap bus a f) (take_trap-IsPart k a f part) in
      (part', omega (arith, ticks, take_trap-ticks a f))

  interrupt_by-IsBooting :
      (k n w : ℕ) (due : List (List (Arrival bus))) (f : Firmware bus)
      → IsBooting k n w (record { firmware = f; due = due })
      → IsBooting k n w (interrupt_by bus due f)
  interrupt_by-IsBooting k n w [] f b = record { part = b.part; ticks = b.ticks; traps = b.traps }
  interrupt_by-IsBooting k n w (first ∷ due) f b =
      let (part, ticks) = take_traps-IsPart k first f b.part in
      record { part = part; ticks = omega (arith, ticks, b.ticks); traps = omega (arith, b.traps) }

  interrupt-IsBooting :
      (k n w : ℕ) (s : Running bus) → IsBooting k n w s → IsBooting k n w (interrupt bus s)
  interrupt-IsBooting k n w s b = interrupt_by-IsBooting k n w s.due s.firmware b

  -- The device is not part of it.
  with_device-IsBooting :
      (k n w : ℕ) (device : bus.Device) (s : Running bus)
      → IsBooting k n w s
      → IsBooting k n w (record s { firmware = record s.firmware { device = device } })
  with_device-IsBooting k n w device s b = record {
    part = record { reset = b.part.reset; enabled = b.part.enabled };
    ticks = b.ticks;
    traps = b.traps;
  }

  store-IsBooting :
      (k n w : ℕ) (r : Reg) (v : ℕ) (s : Running bus)
      → IsBooting k n w s
      → IsBooting k n w ((interruptible bus).store r v s)
  store-IsBooting k n w r v s b =
      with_device-IsBooting k n w _ (interrupt bus s) (interrupt-IsBooting k n w s b)

  load-IsBooting :
      (k n w : ℕ) (r : Reg) (s : Running bus)
      → IsBooting k n w s
      → IsBooting k n w ((interruptible bus).load r s).1
  load-IsBooting k n w r s b =
      with_device-IsBooting k n w _ (interrupt bus s) (interrupt-IsBooting k n w s b)

  configure-IsBooting :
      (k n w period : ℕ) (s : Running bus)
      → IsBooting k n w s
      → IsBooting k n w (timer_configure_periodic_timer (interruptible bus) timer_0 period s)
  unfolding timer_configure_periodic_timer
  configure-IsBooting k n w period s b =
      let s1 = (interruptible bus).store tcsr0 0x100 s in
      let s2 = (interruptible bus).store tlr0 (reload_value period) s1 in
      let s3 = (interruptible bus).store tcsr0 0x20 s2 in
      let (v, s4) = (interruptible bus).load tcsr0 s3 in
      store-IsBooting k n w tcsr0 (periodic_bits v) s4 (
        load-IsBooting k n w tcsr0 s3 (
          store-IsBooting k n w tcsr0 0x20 s2 (
            store-IsBooting k n w tlr0 (reload_value period) s1
              (store-IsBooting k n w tcsr0 0x100 s b))))

  -- The traps before a statement may make as many ticks as there are, and the reset undoes them.
  reset_ticks-IsBooting :
      (n w : ℕ) (s : Running bus)
      → IsBooting 0 n w s
      → IsBooting 0 w w (stage bus (reset_ticks bus) s)
  reset_ticks-IsBooting n w s b =
      let b' = interrupt-IsBooting 0 n w s b in
      record {
        part = record { reset = b'.part.reset; enabled = b'.part.enabled };
        ticks = omega (arith, b'.traps);
        traps = b'.traps;
      }

  reset_slot-IsBooting :
      (k n w : ℕ) (s : Running bus)
      → k < num_tasks
      → IsBooting k n w s
      → IsBooting (k + 1) n w (stage bus (reset_slot bus k) s)
  reset_slot-IsBooting k n w s h b =
      let s' = interrupt bus s in
      let b' = interrupt-IsBooting k n w s b in
      record {
        part = record {
          reset = set-ResetTo k s'.firmware.scheduler.queue b'.part.reset h;
          enabled = b'.part.enabled;
        };
        ticks = b'.ticks;
        traps = b'.traps;
      }

  enable-IsBooting :
      (k n w : ℕ) (s : Running bus) → IsBooting k n w s → IsBooting k n w (stage bus (enable bus) s)
  unfolding scheduler_enable
  enable-IsBooting k n w s b =
      let b' = interrupt-IsBooting k n w s b in
      record {
        part = record { reset = b'.part.reset; enabled = b'.part.enabled };
        ticks = b'.ticks;
        traps = b'.traps;
      }

  beat-IsBooting :
      (k n w : ℕ) (s : Running bus) → IsBooting k n w s → IsBooting k n w (stage bus (beat bus) s)
  beat-IsBooting k n w s b =
      let b' = interrupt-IsBooting k n w s b in
      record {
        part = record { reset = b'.part.reset; enabled = b'.part.enabled };
        ticks = b'.ticks;
        traps = b'.traps;
      }

  boot_front-IsBooting :
      (s : Running bus)
      → length s.firmware.scheduler.queue ≡ num_tasks
      → IsBooting 0
          (s.firmware.scheduler.ticks + traps_of s.due)
          (traps_of s.due)
          (record s { firmware = boot_front bus s.firmware })
  unfolding boot_front hw_init core_enable_interrupts
  boot_front-IsBooting s sized = record {
    part = record {
      reset = record { sized = sized; slots = λ j t lt e. absurd (omega (arith, lt)) };
      enabled = omega (arith, bit_or_bit 3 _);
    };
    ticks = omega arith;
    traps = omega arith;
  }

  scheduler_init_interrupted-IsBooting :
      (n w : ℕ) (s : Running bus)
      → IsBooting 0 n w s
      → IsBooting 4 w w (scheduler_init_interrupted bus s)
  unfolding scheduler_init_interrupted
  scheduler_init_interrupted-IsBooting n w s b =
      let s0 = stage bus (reset_ticks bus) s in
      let s1 = stage bus (reset_slot bus 0) s0 in
      let s2 = stage bus (reset_slot bus 1) s1 in
      let s3 = stage bus (reset_slot bus 2) s2 in
      let s4 = stage bus (reset_slot bus 3) s3 in
      let s5 = timer_configure_periodic_timer (interruptible bus) timer_0 25000 s4 in
      let b0 = reset_ticks-IsBooting n w s b in
      let b1 = reset_slot-IsBooting 0 w w s0 (omega arith) b0 in
      let b2 = reset_slot-IsBooting 1 w w s1 (omega arith) b1 in
      let b3 = reset_slot-IsBooting 2 w w s2 (omega arith) b2 in
      let b4 = reset_slot-IsBooting 3 w w s3 (omega arith) b3 in
      enable-IsBooting 4 w w s5 (configure-IsBooting 4 w w 25000 s4 b4)

  pub boot_interrupted-IsBooting :
      (s : Running bus)
      → length s.firmware.scheduler.queue ≡ num_tasks
      → IsBooting 4 (traps_of s.due) (traps_of s.due) (boot_interrupted bus s)
  unfolding boot_interrupted
  boot_interrupted-IsBooting s sized =
      let front = record s { firmware = boot_front bus s.firmware } in
      let n = s.firmware.scheduler.ticks + traps_of s.due in
      scheduler_init_interrupted-IsBooting n (traps_of s.due) (stage bus (beat bus) front)
        (beat-IsBooting 0 n (traps_of s.due) front (boot_front-IsBooting s sized))
