-- ===== src/System/Mirrors.antt =====
-- Runs of the machine of the main loop that keep up with a firmware that is described in another way.
use mathlib.Core.List.{append-nil, append_assoc}
use trace_fs.Base.{ℕ, ◌+◌, ◌≡◌, refl, sym, ◌∙◌, arith, List, [], ◌∷◌, ◌++◌}
use trace_fs.Scheduler.{Task}
use trace_fs.Scheduler.Run.{Machine, Event, main, ticked, main_step, tick, step, run}
use trace_fs.Scheduler.Stop.{main_steps}

run-append : (es fs : List Event) (m : Machine) → run (es ++ fs) m ≡ run fs (run es m)
unfolding run
run-append [] fs m = refl
run-append (e ∷ es) fs m = run-append es fs (step e m)

main_steps-append : (es fs : List Event) → main_steps (es ++ fs) ≡ main_steps es + main_steps fs
main_steps-append [] fs = omega arith
main_steps-append (main ∷ es) fs = omega (arith, main_steps-append es fs)
main_steps-append (ticked ∷ es) fs = main_steps-append es fs

-- From m, some schedule with n steps of the main program calls the tasks ts and gets to P.
pub record Mirrors (P : Machine → Type 0) (ts : List Task) (n : ℕ) (m : Machine) : Type 0 where
  pub schedule : List Event
  pub agrees : P (run schedule m)
  pub calls : (run schedule m).calls ≡ m.calls ++ ts
  pub steps : main_steps schedule ≡ n

pub still-Mirrors : (P : Machine → Type 0) (m : Machine) → P m → Mirrors P [] 0 m
unfolding run
still-Mirrors P m a = record {
  schedule = [];
  agrees = a;
  calls = sym (append-nil m.calls);
  steps = refl;
}

pub tick-Mirrors : (P : Machine → Type 0) (m : Machine) → P (tick m) → Mirrors P [] 0 m
unfolding run step tick
tick-Mirrors P m a = record {
  schedule = ticked ∷ [];
  agrees = a;
  calls = sym (append-nil m.calls);
  steps = refl;
}

-- A step that calls what the machine's step calls.
pub main-Mirrors :
    (P : Machine → Type 0) (ts : List Task) (m : Machine)
    → P (main_step m)
    → (main_step m).calls ≡ m.calls ++ ts
    → Mirrors P ts 1 m
unfolding run step
main-Mirrors P ts m a e = record { schedule = main ∷ []; agrees = a; calls = e; steps = refl }

pub Mirrors-trans :
    (P Q : Machine → Type 0) (ts us : List Task) (n k : ℕ) (m : Machine)
    → (h : Mirrors P ts n m) → Mirrors Q us k (run h.schedule m)
    → Mirrors Q (ts ++ us) (n + k) m
Mirrors-trans P Q ts us n k m h g = record {
  schedule = h.schedule ++ g.schedule;
  agrees = rw run-append g.agrees;
  calls = rw (run-append, g.calls, h.calls) (append_assoc m.calls ts us);
  steps = main_steps-append h.schedule g.schedule ∙ rw (h.steps, g.steps) refl;
}
