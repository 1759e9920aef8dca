-- ===== src/Tasks/InOrder.antt =====
-- The accesses of a task's function in a row, against the function in one step.
use trace_fs.Base.{
  sym, ◌∙◌, ℕ, ◌≡◌, refl, some_inj, ap, List, [], ◌∷◌, ◌++◌, Bool, true, false, Option, none, some,
}
use trace_fs.Base.Int.{ℤ, pos}
use trace_fs.Tasks.Effect.{wait-some, after_5ms, after_1000ms, run_5ms-some, run_1000ms-some}
use trace_fs.Hal.Bus.{gpio_data, tcsr0}
use trace_fs.Hal.Led.{on, off, led_toggle, merge_byte}
use trace_fs.Hal.Timer.{timer_disable_timer}
use trace_fs.Asw.Scenarios.{
  is_third, store_y, is_set, f, init_value, task_5ms_bs_math, task_100ms_nexus,
}
use trace_fs.Scheduler.{Entry, task_5ms, task_10ms, task_100ms, task_1000ms, scheduler_disable}
use trace_fs.Tasks.{
  Platform, World, toggle, wait_time_5ms, wait_time_1000ms, run_10ms, run_100ms, call, test_trace,
}
use trace_fs.Tasks.Accesses.{
  Access, Target, block_1, by_flag, target_led, place_of, busy_wait, read_signal, toggle_accesses,
  bs_math_accesses, keep_world, Frame, exec, exec_all, accesses, accesses_5ms, accesses_100ms,
  accesses_1000ms, disable_accesses, run_asm_test, keep_value, write_y, read_z, write_z, send_test,
}

module _ (platform : Platform) where
  open platform use {bus}

  -- The world of a result.
  abbrev pub world_of : Option (Frame platform) → Option (World platform)
  world_of none = none
  world_of (some s) = some s.world

  -- What a list of accesses leads to, in front of further ones.
  exec_all-front :
      (front rest : List Access) (s s1 : Frame platform)
      → exec_all platform front s ≡ some s1
      → exec_all platform (front ++ rest) s ≡ exec_all platform rest s1
  unfolding exec_all
  exec_all-front [] rest s s1 h = ap (exec_all platform rest) (some_inj s s1 h)
  exec_all-front (a ∷ front) rest s s1 h =
      by_result (λ s' e. exec_all-front front rest s' s1 e) (exec platform a s) h
    where
      by_result :
          ((s' : Frame platform)
            → exec_all platform front s' ≡ some s1
            → exec_all platform (front ++ rest) s' ≡ exec_all platform rest s1)
          → (r : Option (Frame platform))
          → elim r [ none ↦ none | some s' ↦ exec_all platform front s' ] ≡ some s1
          → elim r [ none ↦ none | some s' ↦ exec_all platform (front ++ rest) s' ]
            ≡ exec_all platform rest s1
      by_result further none h = absurd (cc)
      by_result further (some s') h = further s' h

  exec_all-busy_wait :
      (cycles : ℕ) (s : Frame platform) → exec_all platform (busy_wait cycles ∷ []) s ≡ some s
  unfolding exec_all exec
  exec_all-busy_wait cycles s =
      ap
        (λ (o : Option (World platform)). elim (keep_world platform s.local o) [
          | none ↦ none
          | some s' ↦ some s'
        ])
        (wait-some platform cycles s.world)

  -- The frame behind `led_toggle(led, status);`
  abbrev toggled : Target → ℕ → Frame platform → Frame platform
  toggled target status s = record {
    local = record s.local { byte = (bus.load_byte gpio_data (place_of target) s.world.device).0 };
    world = toggle platform (target_led target s.local) status s.world;
  }

  exec_all-toggle :
      (target : Target) (status : ℕ) (s : Frame platform)
      → exec_all platform (toggle_accesses target status) s ≡ some (toggled target status s)
  unfolding exec_all exec led_toggle merge_byte
  exec_all-toggle block_1 status s = refl
  exec_all-toggle by_flag status s = by_led s.local.flag refl
    where
      by_led :
          (flag : Bool)
          → s.local.flag ≡ flag
          → exec_all platform (toggle_accesses by_flag status) s ≡ some (toggled by_flag status s)
      by_led true e = rw e refl
      by_led false e = rw e refl

  exec_all-task_5ms :
      (s : Frame platform)
      → world_of (exec_all platform accesses_5ms s) ≡ some (after_5ms platform s.world)
  unfolding exec_all exec task_5ms_bs_math
  exec_all-task_5ms s =
      let s1 = record s {
        local = record s.local { flag = is_set (task_5ms_bs_math s.world.scenario).signal };
        world = record s.world { scenario = task_5ms_bs_math s.world.scenario };
      } in
      let s2 = toggled by_flag on s1 in
      let r3 = toggle_accesses by_flag off in
      let r2 = (busy_wait wait_time_5ms ∷ []) ++ r3 in
      let r1 = toggle_accesses by_flag on ++ r2 in
      ap world_of (
        exec_all-front (bs_math_accesses ++ (read_signal ∷ [])) r1 s s1 refl
        ∙ exec_all-front (toggle_accesses by_flag on) r2 s1 s2 (exec_all-toggle by_flag on s1)
        ∙ exec_all-front (busy_wait wait_time_5ms ∷ []) r3 s2 s2
            (exec_all-busy_wait wait_time_5ms s2)
        ∙ exec_all-toggle by_flag off s2)

  exec_all-task_1000ms :
      (s : Frame platform)
      → world_of (exec_all platform accesses_1000ms s) ≡ some (after_1000ms platform s.world)
  unfolding exec_all exec scheduler_disable timer_disable_timer
  exec_all-task_1000ms s =
      let (scheduler, d) = scheduler_disable bus s.world.scheduler s.world.device in
      let s1 = record s {
        local = record s.local { control = (bus.load tcsr0 s.world.device).0 };
        world = record s.world { scheduler = scheduler; device = d };
      } in
      let s2 = toggled block_1 on s1 in
      let r4 = toggle_accesses block_1 off in
      let r3 = run_asm_test ∷ r4 in
      let r2 = busy_wait wait_time_1000ms ∷ r3 in
      let r1 = toggle_accesses block_1 on ++ r2 in
      let s3 = record s2 {
        world = record s2.world { other = platform.asm_test_main s2.world.other };
      } in
      ap world_of (
        exec_all-front disable_accesses r1 s s1 refl
        ∙ exec_all-front (toggle_accesses block_1 on) r2 s1 s2 (exec_all-toggle block_1 on s1)
        ∙ exec_all-front (busy_wait wait_time_1000ms ∷ []) r3 s2 s2
            (exec_all-busy_wait wait_time_1000ms s2)
        ∙ exec_all-front (run_asm_test ∷ []) r4 s2 s3 refl
        ∙ exec_all-toggle block_1 off s3)

  exec_all-task_100ms :
      (s : Frame platform)
      → world_of (exec_all platform accesses_100ms s) ≡ call platform task_100ms s.world
  unfolding exec_all exec call run_100ms task_100ms_nexus
  exec_all-task_100ms s =
      by_value (elim (init_value s.world.scenario.vars.x) [ none ↦ none | some v ↦ f (pos v) ])
    where
      signalled : Frame platform
      signalled = record s {
        world = record s.world {
          scenario = record s.world.scenario { signal = is_third s.world.scenario.vars.z };
        };
      }

      by_value :
          (o : Option ℤ)
          → world_of (elim (keep_value platform o signalled) [
            | none ↦ none
            | some s' ↦ exec_all platform (write_y ∷ read_z ∷ write_z ∷ send_test ∷ []) s'
          ])
            ≡ elim (store_y o signalled.world.scenario) [
              | none ↦ none
              | some scenario ↦ some (test_trace platform (record s.world { scenario = scenario }))
            ]
      by_value none = refl
      by_value (some v) = refl

  -- For every task and every state: the accesses of its function, with no trap between them, have
  -- the result of the function in one step, and no defined result where it has none.
  pub exec_all-call :
      (e : Entry) (s : Frame platform)
      → world_of (exec_all platform (accesses e) s) ≡ call platform e s.world
  unfolding exec_all exec accesses call
  exec_all-call task_5ms s = exec_all-task_5ms s ∙ sym (run_5ms-some platform s.world)
  exec_all-call task_10ms s = unfold run_10ms in refl
  exec_all-call task_100ms s = exec_all-task_100ms s
  exec_all-call task_1000ms s = exec_all-task_1000ms s ∙ sym (run_1000ms-some platform s.world)
