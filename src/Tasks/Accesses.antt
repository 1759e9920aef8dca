-- ===== src/Tasks/Accesses.antt =====
-- The functions of the tasks (firmware/emsa5/task_5ms.c, task_10ms.c, task_100ms.c, task_1000ms.c,
-- asw/scenarios_a3/scenarios_a3.c, and what they call in scheduler.c, hal/timer.c and hal/led.c) cut
-- at their accesses to what a trap changes as well: the LEDs, the timer's control register, the
-- scheduler's state and the globals x, y and z. A cut holds one such access at most, and what the
-- function has read stays in `Local` until it is used.
use trace_fs.Base.{ℕ, List, [], ◌∷◌, ◌++◌, Option, none, some, Bool, ◌==◌, if◌then◌else◌}
use trace_fs.Base.Int.{ℤ, pos, ◌+ℤ◌, int32}
use trace_fs.Hal.Bus.{gpio_data, tcsr0}
use trace_fs.Hal.Led.{Led, led_block_1, led_masks, merge, on, off}
use trace_fs.Hal.Timer.{put_bit, ent0, enit0}
use trace_fs.Scheduler.{Entry, task_5ms, task_10ms, task_100ms, task_1000ms}
use trace_fs.Asw.Minmax.{Vars}
use trace_fs.Asw.Contexts.{bs, math}
use trace_fs.Asw.Scenarios.{Scenario, is_set, f, init_value, is_third}
use trace_fs.Tasks.{
  Platform, World, wait_time_5ms, wait_time_1000ms, flag_led, wait, task_10ms_dhry, test_trace,
}

-- The LED that a task names: the one of its flag, or `LED_BLOCK_1`.
pub data Target : Type 0 where
  by_flag block_1 : Target

pub data Access : Type 0 where
  choose_routine run_bs run_math read_signal : Access
  read_led : Target → Access
  write_led : Target → ℕ → Access
  busy_wait : ℕ → Access
  run_dhry : Access
  set_signal read_x write_y read_z write_z send_test : Access
  clear_enabled read_control write_control run_asm_test : Access

-- What the function holds in registers and on its stack.
pub record Local : Type 0 where
  pub flag : Bool
  pub byte : ℕ
  pub control : ℕ
  pub value : ℤ
  pub count : ℤ

pub record Frame (platform : Platform) : Type 0 where
  pub local : Local
  pub world : World platform

abbrev pub target_led : Target → Local → Led
target_led by_flag l = flag_led l.flag
target_led block_1 l = led_block_1

-- The byte of the LED in the GPIO data register, and its mask.
abbrev pub place_of : Target → ℕ
place_of by_flag = 3
place_of block_1 = 0

abbrev pub mask_of : Target → Local → ℕ
mask_of by_flag l = (led_masks (target_led by_flag l)).0
mask_of block_1 l = (led_masks (target_led block_1 l)).1

module _ (platform : Platform) where
  open platform use {bus, asm_test_main}
  open bus use {load, store, load_byte, store_byte}

  abbrev pub on_scenario : (Scenario → Scenario) → Frame platform → Frame platform
  on_scenario g s = record s { world = record s.world { scenario = g s.world.scenario } }

  abbrev pub on_vars : (Vars → Vars) → Frame platform → Frame platform
  on_vars g s = on_scenario (λ c. record c { vars = g c.vars }) s

  -- `f(init_vector[x%20])`, into a register.
  abbrev pub keep_value : Option ℤ → Frame platform → Option (Frame platform)
  keep_value none s = none
  keep_value (some v) s = some (record s { local = record s.local { value = v } })

  abbrev pub keep_world : Local → Option (World platform) → Option (Frame platform)
  keep_world l none = none
  keep_world l (some w) = some (record { local = l; world = w })

  abbrev pub with_device : bus.Device → Frame platform → Frame platform
  with_device d s = record s { world = record s.world { device = d } }

  -- `if (signal) bs_math_index = 10; else bs_math_index = 20;`
  abbrev pub store_index : Frame platform → Frame platform
  store_index s =
      on_scenario (λ c. record c { bs_math_index = if is_set c.signal then 10 else 20 }) s

  -- `if (bs_math_index==10) bs();`, and with 20 and `math`.
  abbrev pub call_bs : Frame platform → Frame platform
  call_bs s =
      on_scenario (λ c. if c.bs_math_index == 10 then record c { contexts = bs c.contexts } else c)
        s

  abbrev pub call_math : Frame platform → Frame platform
  call_math s =
      on_scenario
        (λ c. if c.bs_math_index == 20 then record c { contexts = math c.contexts } else c) s

  -- `bool flag = signal != 0;`
  abbrev pub keep_flag : Frame platform → Frame platform
  keep_flag s = record s { local = record s.local { flag = is_set s.world.scenario.signal } }

  -- The read and the write of `*gpio_ptr = (*gpio_ptr & ~mask) | (status & mask);`.
  abbrev pub load_led : Target → Frame platform → Frame platform
  load_led target s =
      let (old, d) = load_byte gpio_data (place_of target) s.world.device in
      with_device d (record s { local = record s.local { byte = old } })

  abbrev pub store_led : Target → ℕ → Frame platform → Frame platform
  store_led target status s =
      let new = merge s.local.byte (mask_of target s.local) status in
      with_device (store_byte gpio_data (place_of target) new s.world.device) s

  -- `signal = z % 3 == 0;`
  abbrev pub store_signal : Frame platform → Frame platform
  store_signal s = on_scenario (λ c. record c { signal = is_third c.vars.z }) s

  abbrev pub compute_value : Frame platform → Option (Frame platform)
  compute_value s =
      keep_value (elim (init_value s.world.scenario.vars.x) [ none ↦ none | some v ↦ f (pos v) ]) s

  abbrev pub store_value : Frame platform → Frame platform
  store_value s = on_vars (λ v. record v { y = s.local.value }) s

  -- The read and the write of `z++;`.
  abbrev pub load_count : Frame platform → Frame platform
  load_count s = record s { local = record s.local { count = s.world.scenario.vars.z } }

  abbrev pub store_count : Frame platform → Frame platform
  store_count s = on_vars (λ v. record v { z = int32 (s.local.count +ℤ pos 1) }) s

  -- `scheduler_enabled = 0;`
  abbrev pub store_enabled : Frame platform → Frame platform
  store_enabled s = record s {
    world = record s.world { scheduler = record s.world.scheduler { enabled = 0 } };
  }

  -- The read and the write of TCSR0.
  abbrev pub load_control : Frame platform → Frame platform
  load_control s =
      let (v, d) = load tcsr0 s.world.device in
      with_device d (record s { local = record s.local { control = v } })

  abbrev pub store_control : Frame platform → Frame platform
  store_control s =
      let v = put_bit enit0 0 (put_bit ent0 0 s.local.control) in
      with_device (store tcsr0 v s.world.device) s

  abbrev pub on_other : (platform.Other → platform.Other) → Frame platform → Frame platform
  on_other g s = record s { world = record s.world { other = g s.world.other } }

  -- `none` where C leaves the result undefined.
  unfoldable pub exec : Access → Frame platform → Option (Frame platform)
  exec choose_routine s = some (store_index s)
  exec run_bs s = some (call_bs s)
  exec run_math s = some (call_math s)
  exec read_signal s = some (keep_flag s)
  exec (read_led target) s = some (load_led target s)
  exec (write_led target status) s = some (store_led target status s)
  exec (busy_wait cycles) s = keep_world s.local (wait platform cycles s.world)
  exec run_dhry s = some (on_other (task_10ms_dhry platform) s)
  exec set_signal s = some (store_signal s)
  exec read_x s = compute_value s
  exec write_y s = some (store_value s)
  exec read_z s = some (load_count s)
  exec write_z s = some (store_count s)
  exec send_test s = some (record s { world = test_trace platform s.world })
  exec clear_enabled s = some (store_enabled s)
  exec read_control s = some (load_control s)
  exec write_control s = some (store_control s)
  exec run_asm_test s = some (on_other asm_test_main s)

  -- The accesses in a row, with nothing in between.
  unfoldable pub exec_all : List Access → Frame platform → Option (Frame platform)
  unfolding exec
  exec_all [] s = some s
  exec_all (a ∷ as') s = elim (exec a s) [ none ↦ none | some s ↦ exec_all as' s ]

-- `led_toggle(led, status);`
abbrev pub toggle_accesses : Target → ℕ → List Access
toggle_accesses target status = read_led target ∷ write_led target status ∷ []

abbrev pub bs_math_accesses : List Access
bs_math_accesses = choose_routine ∷ run_bs ∷ run_math ∷ []

abbrev pub accesses_5ms : List Access
accesses_5ms =
    bs_math_accesses
    ++ (read_signal ∷ [])
    ++ toggle_accesses by_flag on
    ++ (busy_wait wait_time_5ms ∷ [])
    ++ toggle_accesses by_flag off

abbrev pub accesses_10ms : List Access
accesses_10ms = run_dhry ∷ []

abbrev pub nexus_accesses : List Access
nexus_accesses = set_signal ∷ read_x ∷ write_y ∷ read_z ∷ write_z ∷ []

abbrev pub accesses_100ms : List Access
accesses_100ms = nexus_accesses ++ (send_test ∷ [])

abbrev pub disable_accesses : List Access
disable_accesses = clear_enabled ∷ read_control ∷ write_control ∷ []

abbrev pub accesses_1000ms : List Access
accesses_1000ms =
    disable_accesses
    ++ toggle_accesses block_1 on
    ++ (busy_wait wait_time_1000ms ∷ run_asm_test ∷ [])
    ++ toggle_accesses block_1 off

-- The function that an entry of the table points to.
unfoldable pub accesses : Entry → List Access
accesses task_5ms = accesses_5ms
accesses task_10ms = accesses_10ms
accesses task_100ms = accesses_100ms
accesses task_1000ms = accesses_1000ms
