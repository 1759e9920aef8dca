-- ===== src/Tests/Races.antt =====
-- Inputs for code that traps interrupt at its accesses.
use trace_fs.Base.{ℕ, List, inr, [], ◌∷◌, bit_at, arith, ◌≡◌, refl}
use trace_fs.Hal.Led.{led_block_1, led_toggle, on}
use trace_fs.Trap.Interruptible.{Arrival, Running, interrupt_twice, interruptible}
use trace_fs.Trap.Interrupted.{led_toggle-serial}
use trace_fs.Trap.Entry.{Hart, put, leave_trap, trap_entry, IsHandler}
use trace_fs.Trap.Nested.{leave_trap_cut, leave_trap_cut-mepc}
use trace_fs.Trap.Restored.{trap_entry_restores}
use trace_fs.Tests.Panel.{panel, panel-IsBoard}
use trace_fs.Tests.Boards.{interrupted}

-- All interrupts are raised, and trap.
abbrev arrival : Arrival panel
arrival = record { mcause = 0x8000_000b; mepc = 0x100; arrive = λ d. record d { raised = 15 } }

-- A trap before the read, and two before the write.
abbrev racing : Running panel
racing = record { firmware = interrupted; due = (arrival ∷ []) ∷ (arrival ∷ arrival ∷ []) ∷ [] }

led_toggle-serial_example :
    let s' = led_toggle (interruptible panel) led_block_1 on racing in
    let f = (interrupt_twice panel racing).firmware in
    (bit_at 2 (s'.firmware.device.bytes 0)
      ≡ bit_at 2 ((led_toggle panel led_block_1 on f.device).bytes 0))
    × (s'.firmware ≡ record f { device = s'.firmware.device })
led_toggle-serial_example =
    led_toggle-serial panel panel-IsBoard led_block_1 on 0 2 racing refl
      (((λ p d. refl), tt), (((λ p d. refl), ((λ p d. refl), tt)), tt)) (omega arith)

-- A handler that returns its second argument and touches nothing else.
abbrev plain_handler : Hart → Hart
plain_handler h = record h { regs = put 10 (h.regs 11) h.regs }

plain_handler-IsHandler : IsHandler plain_handler
plain_handler-IsHandler = record {
  kept = λ h r e. ground (arith, e);
  result = λ h. refl;
  stack = λ h a lo hi. refl;
}

-- Each register holds its number, but for the stack pointer, and each word 7.
abbrev hart : Hart
hart = record {
  regs = put 2 0x8000_1000 (λ r. r);
  memory = λ a. 7;
  mcause = 0x8000_000b;
  mepc = 0x240;
}

trap_entry_restores_example :
    let h' = trap_entry plain_handler 0x8000_0100 hart in
    (h'.regs 17 ≡ hart.regs 17) × (h'.mepc ≡ 0x240) × (h'.memory 0x8000_1000 ≡ 31)
trap_entry_restores_example =
    trap_entry_restores plain_handler plain_handler-IsHandler 0x8000_0100 hart (omega arith)
      (omega arith) (omega arith, inr (omega arith)) 17 (omega arith) (omega arith)

abbrev first_five : List (ℕ × ℕ)
first_five = (1, 1) ∷ (5, 2) ∷ (6, 3) ∷ (7, 4) ∷ (10, 5) ∷ []

abbrev behind_five : List (ℕ × ℕ)
behind_five =
    (11, 6)
    ∷ (12, 7)
    ∷ (13, 8)
    ∷ (14, 9)
    ∷ (15, 10)
    ∷ (16, 11)
    ∷ (17, 12)
    ∷ (28, 13)
    ∷ (29, 14)
    ∷ (30, 15)
    ∷ (31, 16)
    ∷ []

-- A second trap behind the first five loads.
leave_trap_cut-mepc_example :
    let h' =
      leave_trap_cut plain_handler 0x8000_0100 first_five behind_five 0x8000_0007 0x1c8 hart in
    (h'.mepc ≡ 0x1c8) × (h'.regs 12 ≡ (leave_trap hart).regs 12)
leave_trap_cut-mepc_example =
    leave_trap_cut-mepc plain_handler plain_handler-IsHandler 0x8000_0100 first_five behind_five
      refl 0x8000_0007 0x1c8 hart (omega arith) (omega arith) (omega arith, inr (omega arith))
      (λ h a e lo hi. refl) 12 (omega arith) (omega arith)
