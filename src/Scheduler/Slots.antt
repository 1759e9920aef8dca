-- ===== src/Scheduler/Slots.antt =====
-- The queue against the task table: a slot holds nothing but the task of its index.
use native.Mathlib.Decide.{ℕ_discrete}
use mathlib.Core.Path.{subst}
use trace_fs.Base.{
  ◌∙◌, sym, ℕ, zero, suc, ◌+◌, ◌%◌, ◌^◌, ◌<◌, ◌≡◌, ◌⊎◌, inl, inr, refl, ap, List, [], ◌∷◌, Option,
  none, some, get_elem?, set, length, u32, arith, ◌==◌, if◌then◌else◌, Bool-cases, leb, ltb, ◌&&◌,
  get_elem?-set_self, get_elem?-set_ne, length-set,
}
use trace_fs.Scheduler.{
  Task, Queue, Scheduler, tasks, num_tasks, release_task, release, release_from, scheduler_next,
}

abbrev pub SlotsOk : List Task → Queue → Type 0
SlotsOk [] [] = Unit
SlotsOk [] (q ∷ qs) = ⊥
SlotsOk (t ∷ ts) [] = ⊥
SlotsOk (t ∷ ts) (q ∷ qs) = ((q ≡ none) ⊎ (q ≡ some t)) × SlotsOk ts qs

pub SlotsOk-set-none :
    (ts : List Task) (qs : Queue) (i : ℕ) → SlotsOk ts qs → SlotsOk ts (set qs i none)
SlotsOk-set-none [] [] i h = h
SlotsOk-set-none [] (q ∷ qs) i h = absurd h
SlotsOk-set-none (t ∷ ts) [] i h = h
SlotsOk-set-none (t ∷ ts) (q ∷ qs) zero h = (inl refl, h.1)
SlotsOk-set-none (t ∷ ts) (q ∷ qs) (suc i) h = (h.0, SlotsOk-set-none ts qs i h.1)

pub SlotsOk-set-some :
    (ts : List Task) (qs : Queue) (i : ℕ) (x : Task)
    → get_elem? ts i ≡ some x
    → SlotsOk ts qs
    → SlotsOk ts (set qs i (some x))
SlotsOk-set-some [] [] i x e h = h
SlotsOk-set-some [] (q ∷ qs) i x e h = absurd h
SlotsOk-set-some (t ∷ ts) [] i x e h = h
SlotsOk-set-some (t ∷ ts) (q ∷ qs) zero x e h = (inr (cc), h.1)
SlotsOk-set-some (t ∷ ts) (q ∷ qs) (suc i) x e h = (h.0, SlotsOk-set-some ts qs i x e h.1)

-- A full slot holds the task of its index.
pub SlotsOk-get :
    (ts : List Task) (qs : Queue) (i : ℕ) (x : Task)
    → SlotsOk ts qs
    → get_elem? qs i ≡ some (some x)
    → get_elem? ts i ≡ some x
SlotsOk-get [] [] i x h e = absurd (cc)
SlotsOk-get [] (q ∷ qs) i x h e = absurd h
SlotsOk-get (t ∷ ts) [] i x h e = absurd h
SlotsOk-get (t ∷ ts) (q ∷ qs) zero x h e = ground arith
SlotsOk-get (t ∷ ts) (q ∷ qs) (suc i) x h e = SlotsOk-get ts qs i x h.1 e

release_task-SlotsOk :
    (time i : ℕ) (o : Option Task) (q : Queue)
    → get_elem? tasks i ≡ o
    → SlotsOk tasks q
    → SlotsOk tasks (release_task time i o q)
release_task-SlotsOk time i none q e h = h
release_task-SlotsOk time i (some t) q e h = elim (Bool-cases (time % t.period == 0)) [
  | inl due ↦ rw due (SlotsOk-set-some tasks q i t e h)
  | inr not_due ↦ rw not_due h
]

release_from-SlotsOk :
    (time left i : ℕ) (q : Queue) → SlotsOk tasks q → SlotsOk tasks (release_from time left i q)
unfolding release_from release
release_from-SlotsOk time zero i q h = h
release_from-SlotsOk time (suc left) i q h =
    release_from-SlotsOk time left (i + 1) (release time i q)
      (release_task-SlotsOk time i (get_elem? tasks i) q refl h)

-- The timer tick keeps each slot null or on its own task.
pub scheduler_next-SlotsOk :
    (s : Scheduler) → SlotsOk tasks s.queue → SlotsOk tasks (scheduler_next s).queue
unfolding scheduler_next
scheduler_next-SlotsOk s h = release_from-SlotsOk (u32 (s.ticks + 1)) num_tasks 0 s.queue h

pub SlotsOk-length : (ts : List Task) (qs : Queue) → SlotsOk ts qs → length qs ≡ length ts
SlotsOk-length [] [] h = refl
SlotsOk-length [] (q ∷ qs) h = absurd h
SlotsOk-length (t ∷ ts) [] h = absurd h
SlotsOk-length (t ∷ ts) (q ∷ qs) h = ap suc (SlotsOk-length ts qs h.1)

pub get_elem?-lt {ℓ} :
    {A : Type ℓ} (xs : List A) (i : ℕ) (x : A) → get_elem? xs i ≡ some x → i < length xs
get_elem?-lt [] i x e = absurd (cc)
get_elem?-lt (y ∷ ys) zero x e = omega arith
get_elem?-lt (y ∷ ys) (suc i) x e = omega (arith, get_elem?-lt ys i x e)

length-release :
    (time i : ℕ) (o : Option Task) (q : Queue) → length (release_task time i o q) ≡ length q
length-release time i none q = refl
length-release time i (some t) q = ground (arith, length-set q i (some t))

pub length-release_from :
    (time left i : ℕ) (q : Queue) → length (release_from time left i q) ≡ length q
unfolding release_from release
length-release_from time zero i q = refl
length-release_from time (suc left) i q =
    length-release_from time left (i + 1) (release time i q)
    ∙ length-release time i (get_elem? tasks i) q

module _ (time j : ℕ) (t : Task) (e : get_elem? tasks j ≡ some t) where
  same : (i : ℕ) (t' : Task) → i ≡ j → get_elem? tasks i ≡ some t' → t' ≡ t
  same i t' p eo = cc (ap (λ (k : ℕ). get_elem? tasks k) p)

  -- The slot j after the round at index i.
  release_task-get :
      (i : ℕ) (o : Option Task) (q : Queue)
      → get_elem? tasks i ≡ o
      → j < length q
      → get_elem? (release_task time i o q) j
        ≡ (if i == j && time % t.period == 0 then some (some t) else get_elem? q j)
  release_task-get i none q eo h = elim (ℕ_discrete i j) [
    | yes p ↦ absurd (subst (λ (k : ℕ). get_elem? tasks k ≡ none → ⊥) (sym p) (λ n. cc) eo)
    | no ne ↦ ground arith
  ]
  release_task-get i (some t') q eo h = elim (ℕ_discrete i j) [
    | yes p ↦ ground (arith, get_elem?-set_self q i (some t'), same i t' p eo)
    | no ne ↦ ground (arith, get_elem?-set_ne q {i = i} {j = j} (some t'))
  ]

  -- The slot j after the rounds from i on.
  pub release_from-get :
      (left i : ℕ) (q : Queue)
      → j < length q
      → get_elem? (release_from time left i q) j ≡ (
          if (leb i j && ltb j (i + left)) && time % t.period == 0
          then some (some t)
          else get_elem? q j)
  unfolding release_from release
  release_from-get zero i q h = ground arith
  release_from-get (suc left) i q h = ground (
    arith,
    release_from-get left (i + 1) (release time i q)
        (rw (length-release time i (get_elem? tasks i) q) h),
    release_task-get i (get_elem? tasks i) q refl h,
  )

-- For any well-formed queue and index of the table, a tick puts the task into its slot if the new
-- time is a multiple of the period, and leaves the slot as it is if not. The time wraps at 2 ^ 32.
pub scheduler_next-slots :
    (s : Scheduler) (i : ℕ) (t : Task)
    → SlotsOk tasks s.queue
    → get_elem? tasks i ≡ some t
    → get_elem? (scheduler_next s).queue i
      ≡ (if (s.ticks + 1) % 2 ^ 32 % t.period == 0 then some (some t) else get_elem? s.queue i)
unfolding scheduler_next
scheduler_next-slots s i t ok e = ground (
  arith,
  release_from-get (u32 (s.ticks + 1)) i t e num_tasks 0 s.queue
      (rw (SlotsOk-length tasks s.queue ok) (get_elem?-lt tasks i t e)),
  get_elem?-lt tasks i t e,
)

-- A tick never empties a slot.
pub scheduler_next-full :
    (s : Scheduler) (j : ℕ) (x : Task)
    → SlotsOk tasks s.queue
    → get_elem? s.queue j ≡ some (some x)
    → get_elem? (scheduler_next s).queue j ≡ some (some x)
scheduler_next-full s j x ok h =
    ground (arith, scheduler_next-slots s j x ok (SlotsOk-get tasks s.queue j x ok h))
