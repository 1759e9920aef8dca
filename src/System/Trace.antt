-- ===== src/System/Trace.antt =====
-- What a receiver of the trace reads from the whole firmware: the calls of the tasks, and between
-- them what the tasks send.
use mathlib.Core.List.{append-nil, append_assoc}
use trace_fs.Base.{
  some_inj, ℕ, ◌^◌, ◌<◌, ◌≡◌, inl, inr, refl, sym, ap, ◌∙◌, List, [], ◌∷◌, ◌++◌, map, Option, none,
  some,
}
use trace_fs.Ctrace.Protocol.{Message, idle, receive}
use trace_fs.Ctrace.Told.{Told-nil, receive-Told}
use trace_fs.Scheduler.{Scheduler, tasks, scheduler_next}
use trace_fs.Scheduler.Slots.{SlotsOk, scheduler_next-full}
use trace_fs.Scheduler.Run.{Phase, at_while, at_slot, at_trace, at_entry, in_task, stopped, fault}
use trace_fs.Scheduler.Safety.{IsSafe, PhaseOk, slot-full, run-IsSafe}
use trace_fs.Scheduler.Visible.{owner_of}
use trace_fs.Tasks.{Platform}
use trace_fs.System.{System, Happening, main_goes, trapped, trap, happen, run_system}
use trace_fs.System.Told.{view, about, pending, entered, called, counter_after, told, told-append}
use trace_fs.System.Simulation.{happen-Mirrors}
use trace_fs.Trap.Dispatch.{handle_trap-scheduler}
use trace_fs.System.Goes.{Follows, Goes, main_at-Goes}

module _ (platform : Platform) where
  open platform use {bus, misa, self}

  happen-IsSafe :
      (h : Happening platform) (s s' : System platform)
      → IsSafe (view platform s)
      → happen platform h s ≡ some s'
      → IsSafe (view platform s')
  happen-IsSafe h s s' safe e =
      let r =
        happen-Mirrors platform h s s' (view platform s) (record { scheduler = refl; phase = refl })
          e in
      let safe' = run-IsSafe r.schedule (view platform s) safe in
      record {
        slots = rw (← r.agrees.scheduler) safe'.slots;
        place = rw (← r.agrees.scheduler, ← r.agrees.phase) safe'.place;
      }

  -- A trap keeps what is announced.
  about-next :
      (p : Phase) (s : Scheduler)
      → SlotsOk tasks s.queue
      → PhaseOk p s
      → about p (scheduler_next s).queue ≡ about p s.queue
  about-next (at_entry i) s ok h = rw (
    slot-full s.queue i h.0 h.1,
    slot-full (scheduler_next s).queue i h.0 (scheduler_next-full s i h.0 ok h.1),
  )
  about-next at_while s ok h = refl
  about-next (at_slot i) s ok h = refl
  about-next (at_trace i) s ok h = refl
  about-next (in_task i t) s ok h = refl
  about-next stopped s ok h = refl
  about-next fault s ok h = refl

  pub about-trap :
      (mcause mepc : ℕ) (arrive : bus.Device → bus.Device) (s : System platform)
      → IsSafe (view platform s)
      → pending platform (trap platform mcause mepc arrive s) ≡ pending platform s
  unfolding trap
  about-trap mcause mepc arrive s safe = elim (handle_trap-scheduler bus mcause mepc _) [
    | inl same ↦ ap (λ (t : Scheduler). map owner_of (about s.phase t.queue)) same
    | inr next ↦
        ap (λ (t : Scheduler). map owner_of (about s.phase t.queue)) next
        ∙ ap (map owner_of) (about-next s.phase s.world.scheduler safe.slots safe.place)
  ]

  happen-Goes :
      (h : Happening platform) (ms : List Message) (s s' : System platform)
      → self < 2 ^ 32
      → IsSafe (view platform s)
      → happen platform h s ≡ some s'
      → Follows platform ms s
      → Goes platform ms (entered platform h s) s s'
  unfolding happen trap
  happen-Goes main_goes ms s s' small safe e follows =
      main_at-Goes platform s.phase ms s s' small safe.slots safe.place refl e follows
  happen-Goes (trapped mcause mepc arrive) ms s s' small safe e follows =
      rw (some_inj s' _ (sym e))
        (rw (about-trap mcause mepc arrive s safe, append-nil ms) follows, refl)

  run_system-Follows :
      (hs : List (Happening platform)) (ms : List Message) (s s' : System platform)
      → self < 2 ^ 32
      → IsSafe (view platform s)
      → run_system platform hs s ≡ some s'
      → Follows platform ms s
      → Follows platform (ms ++ told platform s.world.counter (called platform hs s)) s'
  unfolding run_system called
  run_system-Follows [] ms s s' small safe e follows =
      rw (some_inj s' _ (sym e), append-nil ms) follows
  run_system-Follows (h ∷ hs) ms s s' small safe e follows =
      by_result (λ ns s1 safe1 e1 follows1. run_system-Follows hs ns s1 s' small safe1 e1 follows1)
        (happen platform h s) refl e
    where
      by_result :
          ((ns : List Message) (s1 : System platform)
            → IsSafe (view platform s1)
            → run_system platform hs s1 ≡ some s'
            → Follows platform ns s1
            → Follows platform (ns ++ told platform s1.world.counter (called platform hs s1)) s')
          → (r : Option (System platform)) → happen platform h s ≡ r
          → elim r [ none ↦ none | some s1 ↦ run_system platform hs s1 ] ≡ some s'
          → Follows platform
              (ms
                ++ told platform s.world.counter (
                    entered platform h s ++ elim r [ none ↦ [] | some s1 ↦ called platform hs s1 ]))
              s'
      by_result further none eq e = absurd (cc)
      by_result further (some s1) eq e =
          let (follows1, counted) = happen-Goes h ms s s1 small safe eq follows in
          rw
            (
              told-append platform s.world.counter (entered platform h s) (called platform hs s1),
              ← append_assoc ms (told platform s.world.counter (entered platform h s)) (
                  told platform (counter_after s.world.counter (entered platform h s))
                    (called platform hs s1)),
              ← counted,
            )
            (further (ms ++ told platform s.world.counter (entered platform h s)) s1
              (happen-IsSafe h s s1 safe eq) e follows1)

  -- From the entry of the main loop with a well-formed queue and an empty trace, and for any traps,
  -- arrivals at the peripherals and steps of the main program that have a defined result: a receiver
  -- of the trace reads exactly, for each task called so far and in order, its id and what it sends
  -- (the task of 100 ms the messages of the trace test in the phase of its own counter, the others
  -- nothing), and behind them the id of the task that is announced and about to be called, if there
  -- is one.
  pub run_system-trace :
      (hs : List (Happening platform)) (s s' : System platform)
      → self < 2 ^ 32
      → s.phase ≡ at_while
      → SlotsOk tasks s.world.scheduler.queue
      → s.world.writes ≡ []
      → run_system platform hs s ≡ some s'
      → receive idle s'.world.writes
        ≡ told platform s.world.counter (called platform hs s) ++ pending platform s'
  run_system-trace hs s s' small start ok clear e = receive-Told s'.world.writes _ (
      run_system-Follows hs [] s s' small (record { slots = ok; place = rw start tt }) e
        (rw (clear, start) Told-nil))
