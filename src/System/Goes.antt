-- ===== src/System/Goes.antt =====
-- What a step of the main program adds to the trace of the firmware.
use mathlib.Core.List.{append-nil}
use trace_fs.Base.{
  some_inj, ℕ, ◌^◌, ◌<◌, ◌≡◌, refl, sym, ap, arith, List, Bool, true, false, [], ◌∷◌, ◌++◌, map,
  Option, none, some, ltb, ◌==◌, if◌then◌else◌,
}
use trace_fs.Ctrace.Emit.{CsrWrite, ownership_trace}
use trace_fs.Ctrace.Protocol.{Message, owner}
use trace_fs.Ctrace.Told.{Told, Told-append, Told-owner}
use trace_fs.Scheduler.{Task, Queue, tasks, num_tasks}
use trace_fs.Scheduler.Slots.{SlotsOk, SlotsOk-get}
use trace_fs.Scheduler.Run.{
  Phase, at_while, at_slot, at_trace, at_entry, in_task, stopped, fault, slot, test_slot,
}
use trace_fs.Scheduler.Safety.{PhaseOk, slot-full}
use trace_fs.Scheduler.Visible.{owner_of, id-tasks}
use trace_fs.Tasks.{Platform, World, call}
use trace_fs.System.{System, enter_at, main_at}
use trace_fs.System.Told.{about, pending, counter_after, told, call-counter, call-Told}

module _ (platform : Platform) where
  open platform use {bus, misa, self}

  -- A receiver reads the messages, and behind them the announcement of the task to be called.
  abbrev pub Follows : List Message → System platform → Type 0
  Follows ms s = Told s.world.writes (ms ++ pending platform s)

  -- What the step leads to, if it calls these tasks.
  abbrev pub Goes : List Message → List Task → System platform → System platform → Type 0
  Goes ms ts s s' =
      Follows (ms ++ told platform s.world.counter ts) s'
      × (s'.world.counter ≡ counter_after s.world.counter ts)

  -- A step that writes nothing, and announces and calls no task.
  still-Told :
      (ms ns : List Message) (writes : List CsrWrite)
      → Told writes (ms ++ [])
      → ns ≡ []
      → Told writes ((ms ++ []) ++ ns)
  still-Told ms ns writes told_so none_pending = rw (none_pending, append-nil (ms ++ [])) told_so

  about-while : (off : Bool) (q : Queue) → about (if off then stopped else at_slot 0) q ≡ []
  about-while true q = refl
  about-while false q = refl

  about-test_slot : (i : ℕ) (o : Option Task) (q : Queue) → about (test_slot i o) q ≡ []
  about-test_slot i none q = refl
  about-test_slot i (some t) q = refl

  about-slot :
      (below : Bool) (i : ℕ) (o : Option Task) (q : Queue)
      → about (if below then test_slot i o else at_while) q ≡ []
  about-slot true i o q = about-test_slot i o q
  about-slot false i o q = refl

  trace_at-Goes :
      (i : ℕ) (t : Task) (ms : List Message) (s : System platform)
      → slot s.world.scheduler.queue i ≡ some t
      → t.id < 2 ^ 16
      → Told s.world.writes (ms ++ [])
      → Goes ms [] s (record s {
        phase = at_entry i;
        world = record s.world { writes = s.world.writes ++ ownership_trace t.id };
      })
  trace_at-Goes i t ms s full small told_so = rw full (
    Told-append s.world.writes (ownership_trace t.id) (ms ++ []) (owner t.id ∷ []) told_so
        (Told-owner t.id small),
    refl,
  )

  enter_at-Goes :
      (i : ℕ) (t : Task) (ms : List Message) (s s' : System platform)
      → self < 2 ^ 32
      → enter_at platform i (some t) s ≡ some s'
      → Told s.world.writes (ms ++ (owner t.id ∷ []))
      → Goes ms (t ∷ []) s s'
  enter_at-Goes i t ms s s' small h told_so = by_result (call platform t.entry s.world) refl h
    where
      by_result :
          (r : Option (World platform))
          → call platform t.entry s.world ≡ r
          → elim r [ none ↦ none | some w ↦ some (record s { phase = in_task i t; world = w }) ]
            ≡ some s'
          → Goes ms (t ∷ []) s s'
      by_result none e h = absurd (cc)
      by_result (some w) e h = rw (some_inj s' _ (sym h)) (
        call-Told platform t ms s.world w small e told_so,
        call-counter platform t.entry s.world w e,
      )

  pub main_at-Goes :
      (p : Phase) (ms : List Message) (s s' : System platform)
      → self < 2 ^ 32
      → SlotsOk tasks s.world.scheduler.queue
      → PhaseOk p s.world.scheduler
      → s.phase ≡ p
      → main_at platform p s ≡ some s'
      → Told s.world.writes (ms ++ map owner_of (about p s.world.scheduler.queue))
      → Goes ms (about p s.world.scheduler.queue) s s'
  main_at-Goes at_while ms s s' small ok h e stepped told_so = rw (some_inj s' _ (sym stepped)) (
    still-Told ms _ s.world.writes told_so
        (ap (map owner_of) (about-while (s.world.scheduler.enabled == 0) s.world.scheduler.queue)),
    refl,
  )
  main_at-Goes (at_slot i) ms s s' small ok h e stepped told_so = rw (some_inj s' _ (sym stepped)) (
    still-Told ms _ s.world.writes told_so (
        ap (map owner_of) (
          about-slot (ltb i num_tasks) i (slot s.world.scheduler.queue i) s.world.scheduler.queue)),
    refl,
  )
  main_at-Goes (at_trace i) ms s s' small ok h e stepped told_so =
      let full = slot-full s.world.scheduler.queue i h.0 h.1 in
      let bound = id-tasks i h.0 (SlotsOk-get tasks s.world.scheduler.queue i h.0 ok h.1) in
      rw (some_inj s' _ (sym stepped), full)
        (trace_at-Goes i h.0 ms s full (omega (arith, bound)) told_so)
  main_at-Goes (at_entry i) ms s s' small ok h e stepped told_so =
      let full = slot-full s.world.scheduler.queue i h.0 h.1 in
      rw full (enter_at-Goes i h.0 ms s s' small (rw full at stepped) (rw full at told_so))
  main_at-Goes (in_task i t) ms s s' small ok h e stepped told_so =
      rw (some_inj s' _ (sym stepped)) (still-Told ms [] s.world.writes told_so refl, refl)
  main_at-Goes stopped ms s s' small ok h e stepped told_so =
      rw (some_inj s' _ (sym stepped)) (still-Told ms _ s.world.writes told_so (rw e refl), refl)
  main_at-Goes fault ms s s' small ok h e stepped told_so = absurd h
