-- ===== src/Tasks/Effect.antt =====
-- What a task does to the scheduler, to the trace and to the LEDs.
use mathlib.Core.List.{append-nil}
use trace_fs.Base.{
  is_some, some_inj, ℕ, suc, ◌≡◌, refl, sym, ap, ◌∙◌, arith, [], ◌++◌, Option, none, some, Bool,
  true, false, if◌then◌else◌, Option-cases, inl, inr,
}
use trace_fs.Hal.Core.Waiting.{core_busy_waiting-ends}
use trace_fs.Hal.Led.{led_block_1, on, off}
use trace_fs.Ctrace.Test.{ctrace_test_main}
use trace_fs.Scheduler.{Entry, task_5ms, task_10ms, task_100ms, task_1000ms, scheduler_disable}
use trace_fs.Scheduler.Run.{enter}
use trace_fs.Asw.Scenarios.{Scenario, is_set, task_5ms_bs_math, task_100ms_nexus}
use trace_fs.Asw.Scenarios.Defined.{is_good_index, task_100ms_nexus_defined}
use trace_fs.Tasks.{
  Platform, World, wait_time_5ms, wait_time_1000ms, flag_led, toggle, wait, run_5ms, run_10ms,
  run_100ms, run_1000ms, call, test_trace,
}

abbrev pub is_100ms : Entry → Bool
is_100ms task_100ms = true
is_100ms _ = false

module _ (platform : Platform) where
  open platform use {bus, misa, self}

  -- Waiting ends and changes nothing.
  pub wait-some : (cycles : ℕ) (w : World platform) → wait platform cycles w ≡ some w
  unfolding wait
  wait-some cycles w = rw (wait, core_busy_waiting-ends (suc cycles) cycles (omega arith)) refl

  abbrev pub after_5ms : World platform → World platform
  after_5ms w =
      let w = record w { scenario = task_5ms_bs_math w.scenario } in
      let led = flag_led (is_set w.scenario.signal) in
      toggle platform led off (toggle platform led on w)

  pub run_5ms-some : (w : World platform) → run_5ms platform w ≡ some (after_5ms w)
  unfolding run_5ms
  run_5ms-some w =
      ap
        (λ (o : Option (World platform)). elim o [
          | none ↦ none
          | some w ↦ some (toggle platform (flag_led flag) off w)
        ])
        (wait-some wait_time_5ms _)
    where
      flag : Bool
      flag = is_set (task_5ms_bs_math w.scenario).signal

  abbrev pub after_1000ms : World platform → World platform
  after_1000ms w =
      let (scheduler, d) = scheduler_disable bus w.scheduler w.device in
      let w = toggle platform led_block_1 on (record w { scheduler = scheduler; device = d }) in
      toggle platform led_block_1 off (record w { other = platform.asm_test_main w.other })

  pub run_1000ms-some : (w : World platform) → run_1000ms platform w ≡ some (after_1000ms w)
  unfolding run_1000ms
  run_1000ms-some w =
      ap
        (λ (o : Option (World platform)). elim o [
          | none ↦ none
          | some w ↦ some (
              toggle platform led_block_1 off (record w { other = platform.asm_test_main w.other }))
        ])
        (wait-some wait_time_1000ms _)

  -- For every world, the functions of the tasks with the periods 5, 10 and 1000 ms return, and the
  -- one of 100 ms has a defined result exactly if the index that it reads the table with is good.
  pub call_defined :
      (e : Entry) (w : World platform)
      → is_some (call platform e w) ≡ (if is_100ms e then is_good_index w.scenario.vars.x else true)
  unfolding call
  call_defined task_5ms w = ap is_some (run_5ms-some w)
  call_defined task_10ms w = refl
  call_defined task_100ms w =
      kept (task_100ms_nexus w.scenario) ∙ task_100ms_nexus_defined w.scenario
    where
      kept :
          (o : Option Scenario)
          → is_some (elim o [
            | none ↦ none
            | some s ↦ some (test_trace platform (record w { scenario = s }))
          ])
            ≡ is_some o
      kept none = refl
      kept (some s) = refl
  call_defined task_1000ms w = ap is_some (run_1000ms-some w)

  -- The world behind a task's function.
  abbrev pub IsAfter : Entry → World platform → World platform → Type 0
  IsAfter task_5ms w w' = w' ≡ after_5ms w
  IsAfter task_10ms w w' = w' ≡ run_10ms platform w
  IsAfter task_100ms w w' = (s : Scenario) × (w' ≡ test_trace platform (record w { scenario = s }))
  IsAfter task_1000ms w w' = w' ≡ after_1000ms w

  pub call-IsAfter :
      (e : Entry) (w w' : World platform) → call platform e w ≡ some w' → IsAfter e w w'
  unfolding call run_100ms
  call-IsAfter task_5ms w w' h = some_inj w' _ (sym h ∙ run_5ms-some w)
  call-IsAfter task_10ms w w' h = some_inj w' _ (sym h)
  call-IsAfter task_100ms w w' h = elim (Option-cases (task_100ms_nexus w.scenario)) [
    | inl e ↦ absurd (missing (stuck e ∙ h))
    | inr (s, e) ↦ (s, some_inj w' _ (sym h ∙ finished s e))
  ]
    where
      missing : none ≡ some w' → ⊥
      missing e = cc

      stuck : task_100ms_nexus w.scenario ≡ none → none ≡ call platform task_100ms w
      stuck e = rw (call, run_100ms, e) refl

      finished :
          (s : Scenario)
          → task_100ms_nexus w.scenario ≡ some s
          → call platform task_100ms w ≡ some (test_trace platform (record w { scenario = s }))
      finished s e = rw (call, run_100ms, e) refl
  call-IsAfter task_1000ms w w' h = some_inj w' _ (sym h ∙ run_1000ms-some w)

  -- Whenever the function of a task returns, its effect on the scheduler is the one that the main
  -- loop's machine gives to the task, and its CSR writes are those of the trace test for the task of
  -- 100 ms, and none for the others.
  pub call-enter :
      (e : Entry) (w w' : World platform)
      → call platform e w ≡ some w'
      → (w'.scheduler ≡ enter e w.scheduler)
        × (w'.writes
            ≡ w.writes ++ (if is_100ms e then (ctrace_test_main w.counter misa self).0 else []))
  unfolding run_10ms scheduler_disable
  call-enter e w w' h = go e (call-IsAfter e w w' h)
    where
      go :
          (e : Entry)
          → IsAfter e w w'
          → (w'.scheduler ≡ enter e w.scheduler)
            × (w'.writes
                ≡ w.writes ++ (if is_100ms e then (ctrace_test_main w.counter misa self).0 else []))
      go task_5ms e = rw e (refl, sym (append-nil w.writes))
      go task_10ms e = rw e (refl, sym (append-nil w.writes))
      go task_100ms (s, e) = rw e (refl, refl)
      go task_1000ms e = rw e (refl, sym (append-nil w.writes))
