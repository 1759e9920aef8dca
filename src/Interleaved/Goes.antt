-- ===== src/Interleaved/Goes.antt =====
-- What a step of the firmware with traps at any access adds to the trace.
use mathlib.Core.List.{append-nil, append_assoc}
use trace_fs.Base.{
  ℕ, ◌+◌, ◌%◌, ◌^◌, ◌<◌, ◌≡◌, inl, inr, refl, sym, ap, ◌∙◌, arith, List, [], ◌∷◌, ◌++◌, map, Option,
  none, some, some_inj, Bool-cases, if◌then◌else◌,
}
use trace_fs.Ctrace.Protocol.{Message, owner}
use trace_fs.Ctrace.Test.{ctrace_test_main, test_writes, expected}
use trace_fs.Ctrace.Told.{Told, Told-append, Told-test}
use trace_fs.Scheduler.{Entry, task_5ms, task_10ms, task_100ms, task_1000ms, Task, Queue, Scheduler}
use trace_fs.Scheduler.Run.{Phase, at_while, at_slot, at_trace, at_entry, in_task, stopped, fault}
use trace_fs.Scheduler.Safety.{IsSafe, slot-full}
use trace_fs.Scheduler.Visible.{owner_of}
use trace_fs.Tasks.{Platform}
use trace_fs.Tasks.Effect.{is_100ms}
use trace_fs.Tasks.Accesses.{Access, Frame, exec, accesses}
use trace_fs.System.{System, main_at}
use trace_fs.System.Told.{view, about, pending, counter_after, told}
use trace_fs.System.Goes.{main_at-Goes}
use trace_fs.Interleaved.{Interleaved, call_slot, in_loop, resume, outside, goes_on, called_at}
use trace_fs.Interleaved.Effect.{effect-queue, is_send, exec-Does}

-- The test's counter behind the accesses that are left.
abbrev pub counter_ahead : List Access → ℕ → ℕ
counter_ahead [] c = c
counter_ahead (a ∷ left) c = counter_ahead left (if is_send a then (c + 1) % 2 ^ 32 else c)

counter_ahead-accesses :
    (e : Entry) (c : ℕ)
    → counter_ahead (accesses e) c ≡ (if is_100ms e then (c + 1) % 2 ^ 32 else c)
unfolding accesses
counter_ahead-accesses task_5ms c = refl
counter_ahead-accesses task_10ms c = refl
counter_ahead-accesses task_100ms c = refl
counter_ahead-accesses task_1000ms c = refl

module _ (platform : Platform) where
  open platform use {bus, misa, self}

  -- What the running function has still to send.
  abbrev pub owed : List Access → ℕ → List Message
  owed [] c = []
  owed (a ∷ left) c =
      (if is_send a then expected (c % 8) misa self else [])
      ++ owed left (if is_send a then (c + 1) % 2 ^ 32 else c)

  owed-accesses :
      (e : Entry) (c : ℕ)
      → owed (accesses e) c ≡ (if is_100ms e then expected (c % 8) misa self else [])
  unfolding accesses
  owed-accesses task_5ms c = refl
  owed-accesses task_10ms c = refl
  owed-accesses task_100ms c = append-nil (expected (c % 8) misa self)
  owed-accesses task_1000ms c = refl

  -- A receiver reads `read`; with what is owed, these are the messages and the announcement of the
  -- task to be called.
  pub record Follows (ms : List Message) (s : Interleaved platform) : Type 0 where
    pub read : List Message
    pub told_so : Told s.system.world.writes read
    pub all : read ++ owed s.left s.system.world.counter ≡ ms ++ pending platform s.system

  abbrev pub counter_of : Interleaved platform → ℕ
  counter_of s = counter_ahead s.left s.system.world.counter

  -- What the step leads to, if it calls these tasks.
  abbrev pub Goes : List Message → List Task → Interleaved platform → Interleaved platform → Type 0
  Goes ms ts s s' =
      Follows (ms ++ told platform (counter_of s) ts) s'
      × (counter_of s' ≡ counter_after (counter_of s) ts)

  call_slot-Goes :
      (i : ℕ) (t : Task) (ms : List Message) (s : Interleaved platform)
      → s.left ≡ []
      → Told s.system.world.writes (ms ++ (owner t.id ∷ []))
      → Goes ms (t ∷ []) s (call_slot platform i (some t) s)
  call_slot-Goes i t ms s none_left told_so =
      let c = s.system.world.counter in
      let sent = if is_100ms t.entry then expected (c % 8) misa self else [] in
      rw none_left (
        record {
          read = ms ++ (owner t.id ∷ []);
          told_so = told_so;
          all =
              rw (owed-accesses t.entry c, append-nil sent, append-nil (ms ++ (owner t.id ∷ sent)))
                (append_assoc ms (owner t.id ∷ []) sent);
        },
        counter_ahead-accesses t.entry c,
      )

  in_loop-Goes :
      (p : Phase) (ms : List Message) (s s' : Interleaved platform)
      → self < 2 ^ 32
      → IsSafe (view platform s.system)
      → s.left ≡ []
      → s.system.phase ≡ p
      → about p s.system.world.scheduler.queue ≡ []
      → Told s.system.world.writes (ms ++ pending platform s.system)
      → in_loop platform (main_at platform p s.system) s ≡ some s'
      → Goes ms [] s s'
  in_loop-Goes p ms s s' small safe none_left at_p silent told_so h =
      by_result (main_at platform p s.system) refl h
    where
      by_result :
          (r : Option (System platform))
          → main_at platform p s.system ≡ r
          → in_loop platform r s ≡ some s'
          → Goes ms [] s s'
      by_result none e h = absurd (cc)
      by_result (some r) e h =
          let (follows, counted) = rw silent at (
            main_at-Goes platform p ms s.system r small safe.slots (rw at_p at safe.place) at_p e
              (rw at_p at told_so)) in
          rw (some_inj s' _ (sym h), none_left)
            (record { read = _; told_so = follows; all = append-nil _ }, counted)

  outside-Goes :
      (p : Phase) (ms : List Message) (s s' : Interleaved platform)
      → self < 2 ^ 32
      → IsSafe (view platform s.system)
      → s.left ≡ []
      → s.system.phase ≡ p
      → Told s.system.world.writes (ms ++ pending platform s.system)
      → outside platform p s ≡ some s'
      → Goes ms (about p s.system.world.scheduler.queue) s s'
  outside-Goes at_while ms s s' small safe e at_p told_so h =
      in_loop-Goes at_while ms s s' small safe e at_p refl told_so h
  outside-Goes (at_slot i) ms s s' small safe e at_p told_so h =
      in_loop-Goes (at_slot i) ms s s' small safe e at_p refl told_so h
  outside-Goes (at_trace i) ms s s' small safe e at_p told_so h =
      in_loop-Goes (at_trace i) ms s s' small safe e at_p refl told_so h
  outside-Goes (at_entry i) ms s s' small safe e at_p told_so h =
      let (t, found) = rw at_p at safe.place in
      let full = slot-full s.system.world.scheduler.queue i t found in
      rw (some_inj s' _ (sym h), full) (call_slot-Goes i t ms s e (rw (at_p, full) at told_so))
  outside-Goes (in_task i t) ms s s' small safe e at_p told_so h =
      in_loop-Goes (in_task i t) ms s s' small safe e at_p refl told_so h
  outside-Goes stopped ms s s' small safe e at_p told_so h =
      in_loop-Goes stopped ms s s' small safe e at_p refl told_so h
  outside-Goes fault ms s s' small safe e at_p told_so h = absurd (rw at_p at safe.place)

  resume-Goes :
      (a : Access) (left : List Access) (ms : List Message) (s s' : Interleaved platform)
      → self < 2 ^ 32
      → s.left ≡ a ∷ left
      → Follows ms s
      → goes_on platform (a ∷ left) s ≡ some s'
      → Goes ms [] s s'
  unfolding ctrace_test_main
  resume-Goes a left ms s s' small e follows h =
      by_result (exec platform a (record { local = s.local; world = s.system.world })) refl h
    where
      c : ℕ
      c = s.system.world.counter

      by_result :
          (r : Option (Frame platform))
          → exec platform a (record { local = s.local; world = s.system.world }) ≡ r
          → resume platform left r s ≡ some s'
          → Goes ms [] s s'
      by_result none x h = absurd (cc)
      by_result (some f) x h =
          let (scheduled, written, counted) = exec-Does platform a _ f x in
          let queued =
            ap (λ (t : Scheduler). t.queue) scheduled ∙ effect-queue a s.system.world.scheduler in
          let announced = ap (λ (q : Queue). map owner_of (about s.system.phase q)) queued in
          rw (some_inj s' _ (sym h), e)
            (elim (Bool-cases (is_send a)) [
              | inl sends ↦ (
                record {
                  read = follows.read ++ expected (c % 8) misa self;
                  told_so =
                      rw (written, sends)
                        (Told-append s.system.world.writes (test_writes (c % 8) misa self)
                          follows.read (expected (c % 8) misa self) follows.told_so
                          (Told-test (c % 8) misa self (omega arith) small));
                  all =
                      rw (announced, append-nil ms, counted, sends)
                        (append_assoc follows.read (expected (c % 8) misa self)
                            (owed left ((c + 1) % 2 ^ 32))
                          ∙ (rw (e, sends) at follows.all));
                },
                rw (counted, sends) refl,
              )
              | inr silent ↦ (
                record {
                  read = follows.read;
                  told_so = rw (written, silent) follows.told_so;
                  all =
                      rw (announced, append-nil ms, counted, silent)
                        (rw (e, silent) at follows.all);
                },
                rw (counted, silent) refl,
              )
            ])

  pub goes_on-Goes :
      (left : List Access) (ms : List Message) (s s' : Interleaved platform)
      → self < 2 ^ 32
      → IsSafe (view platform s.system)
      → s.left ≡ left
      → Follows ms s
      → goes_on platform left s ≡ some s'
      → Goes ms (called_at platform left s) s s'
  goes_on-Goes [] ms s s' small safe e follows h =
      outside-Goes s.system.phase ms s s' small safe e refl
        (rw (sym (append-nil follows.read) ∙ (rw e at follows.all)) at follows.told_so) h
  goes_on-Goes (a ∷ left) ms s s' small safe e follows h =
      resume-Goes a left ms s s' small e follows h
