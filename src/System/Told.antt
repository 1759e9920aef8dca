-- ===== src/System/Told.antt =====
-- The tasks that a run of the firmware calls, and what a receiver of the trace is to read of them.
use trace_fs.Scheduler.Run.{Machine}
use mathlib.Core.List.{append-nil, append_assoc}
use trace_fs.Base.{
  suc, ℕ, ◌+◌, ◌%◌, ◌^◌, ◌<◌, ◌≡◌, inl, inr, refl, sym, ap, ◌∙◌, arith, List, [], ◌∷◌, ◌++◌, map,
  none, some, if◌then◌else◌, Bool-cases,
}
use trace_fs.Ctrace.Protocol.{Message, owner}
use trace_fs.Ctrace.Test.{ctrace_test_main, test_writes, expected}
use trace_fs.Ctrace.Told.{Told, Told-append, Told-test}
use trace_fs.Scheduler.{Entry, task_5ms, task_10ms, task_100ms, task_1000ms, Task, Queue}
use trace_fs.Scheduler.Run.{
  Phase, at_while, at_slot, at_trace, at_entry, in_task, stopped, fault, slot,
}
use trace_fs.Scheduler.Visible.{slot_list, owner_of}
use trace_fs.Tasks.{Platform, World, call, run_10ms}
use trace_fs.Tasks.Effect.{is_100ms, IsAfter, call-IsAfter, call-enter}
use trace_fs.System.{System, Happening, main_goes, trapped, happen}

-- The task that is announced and about to be called.
abbrev pub about : Phase → Queue → List Task
about (at_entry i) q = slot_list (slot q i)
about at_while q = []
about (at_slot i) q = []
about (at_trace i) q = []
about (in_task i t) q = []
about stopped q = []
about fault q = []

-- The static counter of the trace test behind these calls.
abbrev pub counter_after : ℕ → List Task → ℕ
counter_after c [] = c
counter_after c (t ∷ ts) = counter_after (if is_100ms t.entry then (c + 1) % 2 ^ 32 else c) ts

module _ (platform : Platform) where
  open platform use {bus, misa, self}

  abbrev pub pending : System platform → List Message
  pending s = map owner_of (about s.phase s.world.scheduler.queue)

  -- The main loop's place and its scheduler.
  abbrev pub view : System platform → Machine
  view s = record { scheduler = s.world.scheduler; phase = s.phase; trace = []; calls = [] }

  -- The task that a step calls.
  abbrev pub entered : Happening platform → System platform → List Task
  entered main_goes s = about s.phase s.world.scheduler.queue
  entered (trapped mcause mepc arrive) s = []

  -- The tasks that a run calls, in order.
  unfoldable pub called : List (Happening platform) → System platform → List Task
  called [] s = []
  called (h ∷ hs) s =
      entered h s ++ elim (happen platform h s) [ none ↦ [] | some s' ↦ called hs s' ]

  -- The steps of the main program in a run.
  abbrev pub main_steps_of : List (Happening platform) → ℕ
  main_steps_of [] = 0
  main_steps_of (main_goes ∷ hs) = suc (main_steps_of hs)
  main_steps_of (trapped mcause mepc arrive ∷ hs) = main_steps_of hs

  -- What a receiver is to read of these calls: the task's id and, for the task of 100 ms, the
  -- messages of the trace test in the phase of its counter.
  abbrev pub told : ℕ → List Task → List Message
  told c [] = []
  told c (t ∷ ts) =
      owner t.id
      ∷ ((if is_100ms t.entry then expected (c % 8) misa self else [])
          ++ told (if is_100ms t.entry then (c + 1) % 2 ^ 32 else c) ts)

  pub told-append :
      (c : ℕ) (ts us : List Task) → told c (ts ++ us) ≡ told c ts ++ told (counter_after c ts) us
  told-append c [] us = refl
  told-append c (t ∷ ts) us =
      let sent = if is_100ms t.entry then expected (c % 8) misa self else [] in
      let c' = if is_100ms t.entry then (c + 1) % 2 ^ 32 else c in
      ap (λ (ms : List Message). owner t.id ∷ ms)
        (ap (λ (ms : List Message). sent ++ ms) (told-append c' ts us)
          ∙ sym (append_assoc sent (told c' ts) (told (counter_after c' ts) us)))

  -- A call's effect on the counter of the trace test.
  pub call-counter :
      (e : Entry) (w w' : World platform)
      → call platform e w ≡ some w'
      → w'.counter ≡ (if is_100ms e then (w.counter + 1) % 2 ^ 32 else w.counter)
  unfolding ctrace_test_main run_10ms
  call-counter e w w' h = go e (call-IsAfter platform e w w' h)
    where
      go :
          (e : Entry)
          → IsAfter platform e w w'
          → w'.counter ≡ (if is_100ms e then (w.counter + 1) % 2 ^ 32 else w.counter)
      go task_5ms e = rw e refl
      go task_10ms e = rw e refl
      go task_100ms (s, e) = rw e refl
      go task_1000ms e = rw e refl

  -- What a call adds to the trace.
  pub call-Told :
      (t : Task) (ms : List Message) (w w' : World platform)
      → self < 2 ^ 32
      → call platform t.entry w ≡ some w'
      → Told w.writes (ms ++ (owner t.id ∷ []))
      → Told w'.writes ((ms ++ told w.counter (t ∷ [])) ++ [])
  unfolding ctrace_test_main
  call-Told t ms w w' small e told_so =
      rw ((call-enter platform t.entry w w' e).1, append-nil (ms ++ told w.counter (t ∷ [])))
        (elim (Bool-cases (is_100ms t.entry)) [
          | inl sends ↦
              rw
                (
                  sends,
                  append-nil (expected (w.counter % 8) misa self),
                  ← append_assoc ms (owner t.id ∷ []) (expected (w.counter % 8) misa self),
                )
                (Told-append w.writes (test_writes (w.counter % 8) misa self)
                  (ms ++ (owner t.id ∷ [])) (expected (w.counter % 8) misa self) told_so
                  (Told-test (w.counter % 8) misa self (omega arith) small))
          | inr silent ↦ rw (silent, append-nil w.writes) told_so
        ])
