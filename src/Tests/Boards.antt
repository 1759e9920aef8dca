-- ===== src/Tests/Boards.antt =====
-- Inputs for the interrupt controller, the trap handler's LEDs, and the functions of the tasks.
use trace_fs.Base.{
  ℕ, ◌+◌, [], none, some, replicate, if◌then◌else◌, false, bit_at, ltb, ◌==◌, ◌&&◌, arith, ◌≡◌,
  refl,
}
use trace_fs.Base.Int.{pos}
use trace_fs.Hal.Irq.{irq_0}
use trace_fs.Hal.Irq.Laws.{pending}
use trace_fs.Scheduler.{task_5ms, task_1000ms}
use trace_fs.Trap.{Firmware, handle_trap}
use trace_fs.Trap.Leds.{irq_at, handle_trap-shows}
use trace_fs.Tasks.{Platform, World, call}
use trace_fs.Tasks.Effect.{after_5ms, after_1000ms, run_5ms-some, run_1000ms-some}
use trace_fs.Tasks.Leds.{lit, call-leds}
use trace_fs.Tests.Panel.{Panel, panel, panel-IsBoard}

-- IRQ_0 and IRQ_2 are raised, and all but IRQ_2 are enabled.
abbrev pub two_raised : Panel
two_raised = record { raised = 5; enabled = 11; bytes = λ p. 0x5a }

abbrev pub interrupted : Firmware panel
interrupted = record {
  device = two_raised;
  csrs = record { mstatus = 0x1888; mie = 0x800 };
  heartbeat = 3;
  scheduler = record { queue = replicate 4 none; enabled = 1; ticks = 4 };
  vars = record { x = pos 1; y = pos 2; z = pos 3; result = pos 4 };
}

handle_trap-shows_example :
    let d' = (handle_trap panel 0x8000_000b 0x100 interrupted).1.device in
    (bit_at 2 (d'.bytes 0) ≡ (
      if 0 == 0 && ltb 2 4
      then (if pending panel (irq_at 2) two_raised then 1 else 0)
      else bit_at 2 (two_raised.bytes 0)))
    × (pending panel irq_0 d' ≡ false)
handle_trap-shows_example =
    handle_trap-shows panel panel-IsBoard 0x8000_000b 0x100 interrupted irq_0 0 2 refl (omega arith)

-- The benchmark and the assembler test count their calls.
abbrev pub platform : Platform
platform = record {
  bus = panel;
  Other = ℕ × ℕ;
  dhry = λ s. (s.0 + 1, s.1);
  asm_test_main = λ s. (s.0, s.1 + 1);
  misa = 0;
  self = 0x100;
}

abbrev pub world : World platform
world = record {
  device = two_raised;
  scheduler = interrupted.scheduler;
  scenario = record {
    vars = record { x = pos 1; y = pos 2; z = pos 3; result = pos 4 };
    signal = pos 1;
    bs_math_index = 0;
    contexts = record {
      a = replicate 100 (pos 1);
      b = replicate 100 (pos 2);
      c = pos 3;
      output = pos 0;
      arr = replicate 11 (pos 5);
    };
  };
  counter = 0;
  writes = [];
  other = (0, 0);
}

-- The task of 5 ms lights UF 1 for the signal, and the one of 1000 ms stops the scheduler.
five_returns : call platform task_5ms world ≡ some (after_5ms platform world)
unfolding call
five_returns = run_5ms-some platform world

thousand_returns : call platform task_1000ms world ≡ some (after_1000ms platform world)
unfolding call
thousand_returns = run_1000ms-some platform world

call-leds_example :
    bit_at 6 ((after_5ms platform world).device.bytes 3)
    ≡ (if lit platform task_5ms world 3 6 then 0 else bit_at 6 (world.device.bytes 3))
call-leds_example =
    call-leds platform panel-IsBoard task_5ms world (after_5ms platform world) 3 6 five_returns
      (omega arith)
