-- ===== src/Interleaved/Lost.antt =====
-- `z++` of `task_100ms_nexus` (firmware/emsa5/asw/scenarios_a3/scenarios_a3.c) with traps between the
-- read and the write of z.
use trace_fs.Base.{ℕ, ◌≡◌, refl, ap, ◌∙◌, List, [], ◌∷◌, none, some}
use trace_fs.Base.Int.{ℤ, pos, ◌+ℤ◌, int32}
use trace_fs.Tasks.{Platform}
use trace_fs.Tasks.Accesses.{read_z, write_z, Access}
use trace_fs.System.{System, Happening, main_goes, trapped, trap}
use trace_fs.Interleaved.{Interleaved, goes_on, interleave, run_interleaved}

-- A trap with its `mcause`, its `mepc` and what arrives before it.
abbrev pub Trap : Platform → Type 0
Trap platform = ℕ × ℕ × (platform.bus.Device → platform.bus.Device)

module _ (platform : Platform) where
  abbrev pub then_trapped : List (Trap platform) → List (Happening platform)
  then_trapped [] = main_goes ∷ []
  then_trapped ((mcause, mepc, arrive) ∷ traps) = trapped mcause mepc arrive ∷ then_trapped traps

  abbrev pub after_traps : List (Trap platform) → System platform → System platform
  after_traps [] s = s
  after_traps ((mcause, mepc, arrive) ∷ traps) s =
      after_traps traps (trap platform mcause mepc arrive s)

  abbrev pub with_z : ℤ → System platform → System platform
  with_z z s = record s {
    world = record s.world {
      scenario = record s.world.scenario { vars = record s.world.scenario.vars { z = z } };
    };
  }

  waiting_lem :
      (traps : List (Trap platform)) (left : List Access) (s : Interleaved platform)
      → s.left ≡ write_z ∷ left
      → run_interleaved platform (then_trapped traps) s
        ≡ some (record {
          system = with_z (int32 (s.local.count +ℤ pos 1)) (after_traps traps s.system);
          local = s.local;
          left = left;
        })
  unfolding run_interleaved interleave
  waiting_lem [] left s e = rw e refl
  waiting_lem ((mcause, mepc, arrive) ∷ traps) left s e =
      waiting_lem traps left (record s { system = trap platform mcause mepc arrive s.system }) e

  -- For every state in which the function is about to read z, and for any traps between the read and
  -- the write: the state behind the write is the one that the traps leave, except that z is one more
  -- than it was before the traps, so that what ISR2_minmax has made of z is lost.
  pub run_interleaved-count :
      (traps : List (Trap platform)) (left : List Access) (s : Interleaved platform)
      → s.left ≡ read_z ∷ write_z ∷ left
      → let z = s.system.world.scenario.vars.z in
        run_interleaved platform (main_goes ∷ then_trapped traps) s
        ≡ some (record {
          system = with_z (int32 (z +ℤ pos 1)) (after_traps traps s.system);
          local = record s.local { count = z };
          left = left;
        })
  unfolding run_interleaved interleave
  run_interleaved-count traps left s e =
      let read = record s {
        local = record s.local { count = s.system.world.scenario.vars.z };
        left = write_z ∷ left;
      } in
      first e ∙ waiting_lem traps left read refl
    where
      first :
          s.left ≡ read_z ∷ write_z ∷ left
          → run_interleaved platform (main_goes ∷ then_trapped traps) s
            ≡ run_interleaved platform (then_trapped traps) (record s {
              local = record s.local { count = s.system.world.scenario.vars.z };
              left = write_z ∷ left;
            })
      first e =
          ap
            (λ (l : List Access). elim (goes_on platform l s) [
              | none ↦ none
              | some s' ↦ run_interleaved platform (then_trapped traps) s'
            ])
            e
