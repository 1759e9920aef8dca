-- ===== src/Boot/Slots.antt =====
-- The slots that the loop of `scheduler_init` (firmware/emsa5/scheduler.c) has reset so far, while
-- timer interrupts release tasks into any of them. What the others hold is whatever memory held.
use native.Mathlib.Decide.{ℕ_discrete}
use trace_fs.Base.{
  ℕ, ◌+◌, ◌%◌, ◌<◌, ◌≡◌, ◌≢◌, ◌⊎◌, ◌∙◌, sym, inl, inr, refl, ap, arith, [], ◌∷◌, Option, none, some,
  some_inj, get_elem?, set, length, u32, ◌==◌, if◌then◌else◌, Bool, true, false, get_elem?-set_self,
  get_elem?-set_ne, length-set, leb, ltb, ◌&&◌,
}
use trace_fs.Scheduler.{Task, Queue, Scheduler, tasks, num_tasks, scheduler_next}
use trace_fs.Scheduler.Slots.{SlotsOk, get_elem?-lt, length-release_from, release_from-get}

-- The queue has its slots, and each of the first k is null or on its own task.
pub record ResetTo (k : ℕ) (q : Queue) : Type 0 where
  pub sized : length q ≡ num_tasks
  pub slots :
      (j : ℕ) (t : Task)
      → j < k
      → get_elem? tasks j ≡ some t
      → (get_elem? q j ≡ some none) ⊎ (get_elem? q j ≡ some (some t))

pub set-ResetTo : (k : ℕ) (q : Queue) → ResetTo k q → k < num_tasks → ResetTo (k + 1) (set q k none)
set-ResetTo k q r h = record {
  sized = length-set q k none ∙ r.sized;
  slots = λ j t lt e. elim (ℕ_discrete k j) [
    | yes p ↦ inl (
        ap (λ (i : ℕ). get_elem? (set q k none) i) (sym p)
        ∙ get_elem?-set_self q k none (omega (arith, r.sized, h)))
    | no ne ↦ by_old j t ne (r.slots j t (omega (arith, lt, ne)) e)
  ];
}
  where
    by_old :
        (j : ℕ) (t : Task)
        → k ≢ j
        → (get_elem? q j ≡ some none) ⊎ (get_elem? q j ≡ some (some t))
        → (get_elem? (set q k none) j ≡ some none) ⊎ (get_elem? (set q k none) j ≡ some (some t))
    by_old j t ne (inl e) = inl (get_elem?-set_ne q {i = k} {j = j} none ne ∙ e)
    by_old j t ne (inr e) = inr (get_elem?-set_ne q {i = k} {j = j} none ne ∙ e)

-- A tick that comes meanwhile touches a slot only to put its own task in.
pub scheduler_next-ResetTo :
    (k : ℕ) (s : Scheduler) → ResetTo k s.queue → ResetTo k (scheduler_next s).queue
unfolding scheduler_next
scheduler_next-ResetTo k s r = record {
  sized = length-release_from (u32 (s.ticks + 1)) num_tasks 0 s.queue ∙ r.sized;
  slots = λ j t lt e.
      by_release j t (leb 0 j && ltb j (0 + num_tasks) && (u32 (s.ticks + 1) % t.period == 0))
        (release_from-get (u32 (s.ticks + 1)) j t e num_tasks 0 s.queue
          (omega (arith, r.sized, get_elem?-lt tasks j t e)))
        (r.slots j t lt e);
}
  where
    by_release :
        (j : ℕ) (t : Task) (b : Bool)
        → get_elem? (scheduler_next s).queue j ≡ (if b then some (some t) else get_elem? s.queue j)
        → (get_elem? s.queue j ≡ some none) ⊎ (get_elem? s.queue j ≡ some (some t))
        → (get_elem? (scheduler_next s).queue j ≡ some none)
          ⊎ (get_elem? (scheduler_next s).queue j ≡ some (some t))
    by_release j t true eq old = inr eq
    by_release j t false eq (inl e) = inl (eq ∙ e)
    by_release j t false eq (inr e) = inr (eq ∙ e)

-- With all four reset, the queue is well-formed.
pub ResetTo-SlotsOk : (q : Queue) → ResetTo 4 q → SlotsOk tasks q
ResetTo-SlotsOk [] r = absurd (omega (arith, r.sized))
ResetTo-SlotsOk (a ∷ []) r = absurd (omega (arith, r.sized))
ResetTo-SlotsOk (a ∷ b ∷ []) r = absurd (omega (arith, r.sized))
ResetTo-SlotsOk (a ∷ b ∷ c ∷ []) r = absurd (omega (arith, r.sized))
ResetTo-SlotsOk (a ∷ b ∷ c ∷ d ∷ []) r = (
  own a _ (r.slots 0 _ (omega arith) refl),
  (
    own b _ (r.slots 1 _ (omega arith) refl),
    (own c _ (r.slots 2 _ (omega arith) refl), (own d _ (r.slots 3 _ (omega arith) refl), tt)),
  ),
)
  where
    own :
        (o : Option Task) (t : Task)
        → (some o ≡ some none) ⊎ (some o ≡ some (some t))
        → (o ≡ none) ⊎ (o ≡ some t)
    own o t (inl e) = inl (some_inj o none e)
    own o t (inr e) = inr (some_inj o (some t) e)
ResetTo-SlotsOk (a ∷ b ∷ c ∷ d ∷ e ∷ q) r = absurd (omega (arith, r.sized))
