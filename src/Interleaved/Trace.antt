-- ===== src/Interleaved/Trace.antt =====
-- What a receiver of the trace reads from the firmware with traps at any access.
use mathlib.Core.List.{append-nil, append_assoc}
use trace_fs.Base.{
  ◌^◌, ◌<◌, ◌≡◌, refl, sym, ap, ◌∙◌, List, [], ◌∷◌, ◌++◌, Option, none, some, some_inj,
}
use trace_fs.Ctrace.Protocol.{Message, idle, receive}
use trace_fs.Ctrace.Told.{Told-nil, receive-Told}
use trace_fs.Scheduler.{Scheduler, tasks}
use trace_fs.Scheduler.Slots.{SlotsOk}
use trace_fs.Scheduler.Run.{
  Phase, at_while, at_slot, at_trace, at_entry, in_task, stopped, fault, Machine,
}
use trace_fs.Scheduler.Safety.{IsSafe, PhaseOk, run-IsSafe}
use trace_fs.Tasks.{Platform}
use trace_fs.Tasks.Accesses.{Access}
use trace_fs.System.{Happening, main_goes, trapped, trap}
use trace_fs.System.Told.{view, pending, counter_after, told, told-append}
use trace_fs.System.Trace.{about-trap}
use trace_fs.Interleaved.{Interleaved, interleave, run_interleaved, calls_of, all_calls}
use trace_fs.Interleaved.Effect.{effects, effects-queue}
use trace_fs.Interleaved.Simulation.{Matches, interleave-Mirrors}
use trace_fs.Interleaved.Goes.{counter_ahead, owed, Follows, counter_of, Goes, goes_on-Goes}

-- Whether a place is well-formed depends on the queue only.
PhaseOk-queue : (p : Phase) (s t : Scheduler) → s.queue ≡ t.queue → PhaseOk p s → PhaseOk p t
PhaseOk-queue at_while s t e h = tt
PhaseOk-queue (at_slot i) s t e h = tt
PhaseOk-queue (at_trace i) s t e h = (h.0, rw (sym e) h.1)
PhaseOk-queue (at_entry i) s t e h = (h.0, rw (sym e) h.1)
PhaseOk-queue (in_task i x) s t e h = (rw (sym e) h.0, h.1)
PhaseOk-queue stopped s t e h = tt
PhaseOk-queue fault s t e h = h

module _ (platform : Platform) where
  open platform use {bus, misa, self}

  -- The machine that `Matches`.
  abbrev pub ahead_of : Interleaved platform → Machine
  ahead_of s = record {
    scheduler = effects s.left s.system.world.scheduler;
    phase = s.system.phase;
    trace = [];
    calls = [];
  }

  IsSafe-view :
      (s : Interleaved platform) (m : Machine)
      → Matches platform s m
      → IsSafe m
      → IsSafe (view platform s.system)
  IsSafe-view s m k safe =
      let same =
        ap (λ (t : Scheduler). t.queue) k.scheduler
        ∙ effects-queue s.left s.system.world.scheduler in
      record {
        slots = rw (← same) safe.slots;
        place =
            PhaseOk-queue s.system.phase m.scheduler s.system.world.scheduler same
              (rw (← k.phase) safe.place);
      }

  pub IsSafe-ahead :
      (s : Interleaved platform) → IsSafe (view platform s.system) → IsSafe (ahead_of s)
  IsSafe-ahead s safe =
      let same = effects-queue s.left s.system.world.scheduler in
      record {
        slots = rw same safe.slots;
        place = PhaseOk-queue s.system.phase s.system.world.scheduler _ (sym same) safe.place;
      }

  interleave-IsSafe :
      (h : Happening platform) (s s' : Interleaved platform)
      → IsSafe (view platform s.system)
      → interleave platform h s ≡ some s'
      → IsSafe (view platform s'.system)
  interleave-IsSafe h s s' safe e =
      let r =
        interleave-Mirrors platform h s s' (ahead_of s) (record { scheduler = refl; phase = refl })
          e in
      IsSafe-view s' _ r.agrees (run-IsSafe r.schedule (ahead_of s) (IsSafe-ahead s safe))

  interleave-Goes :
      (h : Happening platform) (ms : List Message) (s s' : Interleaved platform)
      → self < 2 ^ 32
      → IsSafe (view platform s.system)
      → Follows platform ms s
      → interleave platform h s ≡ some s'
      → Goes platform ms (calls_of platform h s) s s'
  unfolding interleave trap
  interleave-Goes main_goes ms s s' small safe follows e =
      goes_on-Goes platform s.left ms s s' small safe refl follows e
  interleave-Goes (trapped mcause mepc arrive) ms s s' small safe follows e =
      rw (some_inj s' _ (sym e)) (
        record {
          read = follows.read;
          told_so = follows.told_so;
          all =
              rw (about-trap platform mcause mepc arrive s.system safe, append-nil ms) follows.all;
        },
        refl,
      )

  run_interleaved-Follows :
      (hs : List (Happening platform)) (ms : List Message) (s s' : Interleaved platform)
      → self < 2 ^ 32
      → IsSafe (view platform s.system)
      → Follows platform ms s
      → run_interleaved platform hs s ≡ some s'
      → Follows platform (ms ++ told platform (counter_of platform s) (all_calls platform hs s)) s'
  unfolding run_interleaved all_calls
  run_interleaved-Follows [] ms s s' small safe follows e =
      rw (some_inj s' _ (sym e), append-nil ms) follows
  run_interleaved-Follows (h ∷ hs) ms s s' small safe follows e =
      by_result
        (λ ns s1 safe1 follows1 e1. run_interleaved-Follows hs ns s1 s' small safe1 follows1 e1)
        (interleave platform h s) refl e
    where
      by_result :
          ((ns : List Message) (s1 : Interleaved platform)
            → IsSafe (view platform s1.system)
            → Follows platform ns s1
            → run_interleaved platform hs s1 ≡ some s'
            → Follows platform
                (ns ++ told platform (counter_of platform s1) (all_calls platform hs s1))
                s')
          → (r : Option (Interleaved platform)) → interleave platform h s ≡ r
          → elim r [ none ↦ none | some s1 ↦ run_interleaved platform hs s1 ] ≡ some s'
          → Follows platform
              (ms
                ++ told platform (counter_of platform s) (
                    calls_of platform h s
                    ++ elim r [ none ↦ [] | some s1 ↦ all_calls platform hs s1 ]))
              s'
      by_result further none eq e = absurd (cc)
      by_result further (some s1) eq e =
          let (follows1, counted) = interleave-Goes h ms s s1 small safe follows eq in
          let c = counter_of platform s in
          rw
            (
              told-append platform c (calls_of platform h s) (all_calls platform hs s1),
              ← append_assoc ms (told platform c (calls_of platform h s)) (
                  told platform (counter_after c (calls_of platform h s))
                    (all_calls platform hs s1)),
              ← counted,
            )
            (further (ms ++ told platform c (calls_of platform h s)) s1
              (interleave-IsSafe h s s1 safe eq) follows1 e)

  -- From the entry of the main loop with a well-formed queue and an empty trace, for any steps of the
  -- main program and any traps between them and between the accesses of the tasks' functions, with
  -- any arrivals at the peripherals, where every step has a defined result: what a receiver of the
  -- trace has read, with what the running function has still to send, is exactly the id and the
  -- messages of each task called so far, in order, and behind them the id of the task that is
  -- announced and about to be called, if there is one.
  pub run_interleaved-trace :
      (hs : List (Happening platform)) (s s' : Interleaved platform)
      → self < 2 ^ 32
      → s.system.phase ≡ at_while
      → s.left ≡ []
      → SlotsOk tasks s.system.world.scheduler.queue
      → s.system.world.writes ≡ []
      → run_interleaved platform hs s ≡ some s'
      → receive idle s'.system.world.writes ++ owed platform s'.left s'.system.world.counter
        ≡ told platform s.system.world.counter (all_calls platform hs s)
          ++ pending platform s'.system
  run_interleaved-trace hs s s' small start none_left ok clear e =
      let follows =
        run_interleaved-Follows hs [] s s' small (record { slots = ok; place = rw start tt })
          (record { read = []; told_so = rw clear Told-nil; all = rw (none_left, start) refl }) e in
      rw (receive-Told s'.system.world.writes follows.read follows.told_so) (
        follows.all
        ∙ ap
            (λ (left : List Access).
              told platform (counter_ahead left s.system.world.counter) (all_calls platform hs s)
              ++ pending platform s'.system)
            none_left)
