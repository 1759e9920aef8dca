-- ===== src/Tasks.antt =====
-- firmware/emsa5/task_5ms.c, task_10ms.c, task_100ms.c and task_1000ms.c: the functions that the
-- scheduler's table points to, each without an interrupt in between. `Accesses` cuts them where a trap
-- may make a difference.
pub mod Effect
pub mod Leds
pub mod Accesses
pub mod InOrder
use trace_fs.Base.{ℕ, suc, ◌++◌, List, Option, none, some, Bool, if◌then◌else◌}
use trace_fs.Hal.Bus.{Bus}
use trace_fs.Hal.Core.{core_busy_waiting}
use trace_fs.Hal.Led.{Led, led_uf_1, led_uf_2, led_block_1, on, off, led_toggle}
use trace_fs.Ctrace.Emit.{CsrWrite}
use trace_fs.Ctrace.Test.{ctrace_test_main}
use trace_fs.Scheduler.{
  Scheduler, Entry, task_5ms, task_10ms, task_100ms, task_1000ms, scheduler_disable,
}
use trace_fs.Asw.Scenarios.{Scenario, is_set, task_5ms_bs_math, task_100ms_nexus}

-- What the tasks reach and is not modelled: the peripherals, the Dhrystone benchmark and the
-- assembler test on a state of their own, the CSR `misa`, and the address of `ctrace_test_main`.
pub record Platform : Type 1 where
  pub bus : Bus
  pub Other : Type 0
  pub dhry : Other → Other
  pub asm_test_main : Other → Other
  pub misa : ℕ
  pub self : ℕ

-- All that the tasks change; `writes` holds their CSR writes, oldest first.
pub record World (platform : Platform) : Type 0 where
  pub device : platform.bus.Device
  pub scheduler : Scheduler
  pub scenario : Scenario
  pub counter : ℕ
  pub writes : List CsrWrite
  pub other : platform.Other

-- `WAIT_TIME` of task_5ms.c and of task_1000ms.c.
abbrev pub wait_time_5ms : ℕ
wait_time_5ms = 0x1000

abbrev pub wait_time_1000ms : ℕ
wait_time_1000ms = 0x0008_0000

-- `flag ? LED_UF_1 : LED_UF_2`
abbrev pub flag_led : Bool → Led
flag_led flag = if flag then led_uf_1 else led_uf_2

module _ (platform : Platform) where
  open platform use {bus, dhry, asm_test_main, misa, self}

  abbrev pub toggle : Led → ℕ → World platform → World platform
  toggle led status w = record w { device = led_toggle bus led status w.device }

  -- `core_busy_waiting(cycles);`, with fuel for one round more than it is told.
  unfoldable pub wait : ℕ → World platform → Option (World platform)
  wait cycles w = elim (core_busy_waiting (suc cycles) cycles) [
    | none ↦ none
    | some rounds ↦ some w
  ]

  unfoldable pub run_5ms : World platform → Option (World platform)
  unfolding wait
  run_5ms w =
      let w = record w { scenario = task_5ms_bs_math w.scenario } in
      let flag = is_set w.scenario.signal in
      let w = toggle (flag_led flag) on w in
      elim (wait wait_time_5ms w) [ none ↦ none | some w ↦ some (toggle (flag_led flag) off w) ]

  -- It drops what the benchmark returns.
  abbrev pub task_10ms_dhry : platform.Other → platform.Other
  task_10ms_dhry s = dhry s

  unfoldable pub run_10ms : World platform → World platform
  run_10ms w = record w { other = task_10ms_dhry w.other }

  abbrev pub test_trace : World platform → World platform
  test_trace w =
      let (writes, counter) = ctrace_test_main w.counter misa self in
      record w { writes = w.writes ++ writes; counter = counter }

  unfoldable pub run_100ms : World platform → Option (World platform)
  run_100ms w = elim (task_100ms_nexus w.scenario) [
    | none ↦ none
    | some scenario ↦ some (test_trace (record w { scenario = scenario }))
  ]

  unfoldable pub run_1000ms : World platform → Option (World platform)
  unfolding wait
  run_1000ms w =
      let (scheduler, d) = scheduler_disable bus w.scheduler w.device in
      let w = record w { scheduler = scheduler; device = d } in
      let w = toggle led_block_1 on w in
      elim (wait wait_time_1000ms w) [
        | none ↦ none
        | some w ↦ some (toggle led_block_1 off (record w { other = asm_test_main w.other }))
      ]

  -- `scheduler_queue[i]->entry();`
  unfoldable pub call : Entry → World platform → Option (World platform)
  unfolding run_5ms run_10ms run_100ms run_1000ms
  call task_5ms w = run_5ms w
  call task_10ms w = some (run_10ms w)
  call task_100ms w = run_100ms w
  call task_1000ms w = run_1000ms w
