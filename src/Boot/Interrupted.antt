-- ===== src/Boot/Interrupted.antt =====
-- Traps while the firmware starts: the scheduler is ready all the same.
use trace_fs.Base.{◌≤◌, length, ◌≡◌, ◌≢◌, refl, arith, List, [], ◌∷◌, none, set, replicate, bit_at}
use trace_fs.Hal.Bus.{Bus}
use trace_fs.Hal.Timer.{timer_configure_periodic_timer}
use trace_fs.Scheduler.{num_tasks, Queue, tasks, scheduler_init, scheduler_enable}
use trace_fs.Boot.Slots.{ResetTo-SlotsOk}
use trace_fs.Scheduler.Slots.{SlotsOk}
use trace_fs.Scheduler.Run.{Event, fault, run, enter_run}
use trace_fs.Scheduler.Safety.{run-no_fault}
use trace_fs.Trap.{Firmware}
use trace_fs.Trap.Interruptible.{Running}
use trace_fs.Boot.{boot, hw_init}
use trace_fs.Boot.Stages.{boot_front, scheduler_init_interrupted, boot_interrupted}
use trace_fs.Boot.Booting.{traps_of, boot_interrupted-IsBooting}

module _ (bus : Bus) where
  pub boot_interrupted-SlotsOk :
      (s : Running bus)
      → length s.firmware.scheduler.queue ≡ num_tasks
      → SlotsOk tasks (boot_interrupted bus s).firmware.scheduler.queue
  boot_interrupted-SlotsOk s sized =
      ResetTo-SlotsOk _ (boot_interrupted-IsBooting bus s sized).part.reset

  boot_interrupted-enabled :
      (s : Running bus) → (boot_interrupted bus s).firmware.scheduler.enabled ≡ 1
  unfolding boot_interrupted scheduler_init_interrupted scheduler_enable
  boot_interrupted-enabled s = refl

  -- For every device, whatever the memory of the firmware holds at the start, the four slots of the
  -- queue and the ticks included, and for any traps from `core_enable_interrupts` on: behind the
  -- initialisations every slot is null or on its own task, the ticks are at most as many as these
  -- traps, the scheduler is enabled, interrupts are enabled in the core, and the main loop that starts
  -- then never reads through a null slot, under every schedule of its steps and timer interrupts.
  pub boot_interrupted-ready :
      (s : Running bus) (es : List Event)
      → length s.firmware.scheduler.queue ≡ num_tasks
      → let f = (boot_interrupted bus s).firmware in
        SlotsOk tasks f.scheduler.queue
        × (f.scheduler.ticks ≤ traps_of bus s.due)
        × (f.scheduler.enabled ≡ 1)
        × (bit_at 3 f.csrs.mstatus ≡ 1)
        × ((run es (enter_run f.scheduler)).phase ≢ fault)
  boot_interrupted-ready s es sized =
      let b = boot_interrupted-IsBooting bus s sized in
      let ok = boot_interrupted-SlotsOk s sized in
      (
        ok,
        omega (arith, b.ticks),
        boot_interrupted-enabled s,
        b.part.enabled,
        (run-no_fault es (boot_interrupted bus s).firmware.scheduler ok).0,
      )

  cleared :
      (q : Queue)
      → SlotsOk tasks q
      → set (set (set (set q 0 none) 1 none) 2 none) 3 none ≡ replicate 4 none
  cleared [] ok = absurd ok
  cleared (a ∷ []) ok = absurd ok.1
  cleared (a ∷ b ∷ []) ok = absurd ok.1.1
  cleared (a ∷ b ∷ c ∷ []) ok = absurd ok.1.1.1
  cleared (a ∷ b ∷ c ∷ d ∷ []) ok = refl
  cleared (a ∷ b ∷ c ∷ d ∷ e ∷ q) ok = absurd ok.1.1.1.1

  -- Without a trap, and with the queue's four slots, the statements one by one do what `boot` does at
  -- one stroke.
  pub boot_interrupted-boot :
      (f : Firmware bus)
      → SlotsOk tasks f.scheduler.queue
      → (boot_interrupted bus (record { firmware = f; due = [] })).firmware ≡ boot bus f
  unfolding boot_interrupted scheduler_init_interrupted boot_front boot scheduler_init hw_init
      timer_configure_periodic_timer scheduler_enable
  boot_interrupted-boot f ok = rw (cleared f.scheduler.queue ok) refl
