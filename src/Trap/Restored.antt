-- ===== src/Trap/Restored.antt =====
-- What `trap_entry` leaves of the interrupted code's registers and stack.
use native.Mathlib.Decide.{ℕ_discrete}
use trace_fs.Base.{
  ℕ, ◌+◌, ◌-◌, ◌*◌, ◌^◌, ◌≤◌, ◌<◌, ◌≡◌, ◌≢◌, ◌⊎◌, inl, inr, refl, ap, ◌∙◌, arith, List, [], ◌∷◌,
  Bool, true, false, ◌||◌, u32, ◌==◌, if◌then◌else◌,
}
use trace_fs.Trap.Entry.{
  Hart, put, frame, address, save, restore, enter_trap, leave_trap, trap_entry, is_kept, IsHandler,
}

-- The words of the frame are different, and the last is the sixteenth.
abbrev Increasing : ℕ → List (ℕ × ℕ) → Type 0
Increasing k [] = Unit
Increasing k ((r, j) ∷ rest) = (k < j) × (j ≤ 16) × Increasing j rest

Increasing-earlier : (k j : ℕ) (l : List (ℕ × ℕ)) → k < j → Increasing j l → Increasing k l
Increasing-earlier k j [] lt up = tt
Increasing-earlier k j ((r, i) ∷ rest) lt (after, le, up) = (omega arith, le, up)

put_self : (a v : ℕ) (f : ℕ → ℕ) → put a v f a ≡ v
put_self a v f = ground arith

pub put_other : (a v b : ℕ) (f : ℕ → ℕ) → b ≢ a → put a v f b ≡ f b
put_other a v b f ne = ground arith

abbrev has : ℕ → List (ℕ × ℕ) → Bool
has r [] = false
has r ((q, k) ∷ rest) = (r == q) || has r rest

-- The words of the frame hold the registers.
abbrev Holds : ℕ → List (ℕ × ℕ) → (ℕ → ℕ) → (ℕ → ℕ) → Type 0
Holds sp [] regs memory = Unit
Holds sp ((r, k) ∷ rest) regs memory = (memory (address sp k) ≡ regs r) × Holds sp rest regs memory

module _ (sp : ℕ) (fits : sp + 64 < 2 ^ 32) where
  save-earlier :
      (l : List (ℕ × ℕ)) (k : ℕ) (regs memory : ℕ → ℕ)
      → Increasing k l
      → k ≤ 16
      → save l sp regs memory (address sp k) ≡ memory (address sp k)
  unfolding save
  save-earlier [] k regs memory up le = refl
  save-earlier ((r, j) ∷ rest) k regs memory up le =
      save-earlier rest k regs (put (address sp j) (regs r) memory)
        (Increasing-earlier k j rest up.0 up.2) le
      ∙ put_other (address sp j) (regs r) (address sp k) memory (λ e. omega (arith, e, up.0, up.1))

  save-Holds :
      (l : List (ℕ × ℕ)) (k : ℕ) (regs memory : ℕ → ℕ)
      → Increasing k l
      → Holds sp l regs (save l sp regs memory)
  unfolding save
  save-Holds [] k regs memory up = tt
  save-Holds ((r, j) ∷ rest) k regs memory (lt, le, up) = (
    save-earlier rest j regs (put (address sp j) (regs r) memory) up le
        ∙ put_self (address sp j) (regs r) memory,
    save-Holds rest j regs (put (address sp j) (regs r) memory) up,
  )

  Holds-same :
      (l : List (ℕ × ℕ)) (k : ℕ) (regs memory memory' : ℕ → ℕ)
      → Increasing k l
      → ((j : ℕ) → j ≤ 16 → memory' (address sp j) ≡ memory (address sp j))
      → Holds sp l regs memory
      → Holds sp l regs memory'
  Holds-same [] k regs memory memory' up same holds = tt
  Holds-same ((r, j) ∷ rest) k regs memory memory' (lt, le, up) same (first, holds) =
      (same j le ∙ first, Holds-same rest j regs memory memory' up same holds)

  restore-Holds :
      (l : List (ℕ × ℕ)) (old memory regs : ℕ → ℕ) (r : ℕ)
      → Holds sp l old memory
      → restore l sp memory regs r ≡ (if has r l then old r else regs r)
  unfolding restore
  restore-Holds [] old memory regs r holds = refl
  restore-Holds ((q, k) ∷ rest) old memory regs r (first, holds) =
      restore-Holds rest old memory (put q (memory (address sp k)) regs) r holds
      ∙ elim (ℕ_discrete r q) [
        | yes e ↦ ground (arith, e, first, ap old e)
        | no ne ↦ ground (arith, ne)
      ]

frame-Increasing : Increasing 0 frame
frame-Increasing = omega arith

last_word :
    (sp : ℕ) (regs memory : ℕ → ℕ) → Holds sp frame regs memory → memory (address sp 16) ≡ regs 31
last_word sp regs memory holds = holds.1.1.1.1.1.1.1.1.1.1.1.1.1.1.1.0

-- Each register but x0 and the stack pointer is saved or kept.
is_kept-saved :
    (r : ℕ)
    → 0 < r
    → r < 32
    → r ≢ 2
    → (has r frame ≡ true) ⊎ ((has r frame ≡ false) × (is_kept r ≡ true))
is_kept-saved r lo hi ne = ground arith

-- The words that `__exc_reason` names do not lie in the frame or in the word behind it.
abbrev pub IsApart : ℕ → ℕ → Type 0
IsApart exc_reason sp = (exc_reason + 4 < 2 ^ 32) × ((sp < exc_reason) ⊎ (exc_reason + 68 < sp))

module _ (handler : Hart → Hart) (keeps : IsHandler handler) (exc_reason : ℕ) (h : Hart)
    (room : 64 ≤ h.regs 2) (below : h.regs 2 < 2 ^ 32) (apart : IsApart exc_reason (h.regs 2)) where
  abbrev sp : ℕ
  sp = u32 (h.regs 2 + 2 ^ 32 - 64)

  sp_lem : sp + 64 ≡ h.regs 2
  sp_lem = omega (arith, room, below)

  entered : Hart
  entered = enter_trap exc_reason h

  -- The frame behind the call holds the registers.
  frame-Holds : Holds sp frame (put 2 sp h.regs) (handler entered).memory
  unfolding enter_trap entered
  frame-Holds =
      Holds-same sp fits frame 0 (put 2 sp h.regs) (save frame sp (put 2 sp h.regs) h.memory)
        (handler entered).memory frame-Increasing same
        (save-Holds sp fits frame 0 (put 2 sp h.regs) h.memory frame-Increasing)
    where
      fits : sp + 64 < 2 ^ 32
      fits = omega (arith, sp_lem, below)

      same :
          (j : ℕ)
          → j ≤ 16
          → (handler entered).memory (address sp j)
            ≡ save frame sp (put 2 sp h.regs) h.memory (address sp j)
      same j le =
          let inside : address sp j ≡ sp + j * 4 = omega (arith, le, fits) in
          let stored = put exc_reason h.mcause (save frame sp (put 2 sp h.regs) h.memory) in
          keeps.stack entered (address sp j) (omega (arith, inside)) (omega (arith, inside, le))
          ∙ put_other (u32 (exc_reason + 4)) h.mepc (address sp j) stored (λ e. elim apart.1 [
            | inl above ↦ omega (arith, e, above, inside, le, sp_lem, apart.0)
            | inr under ↦ omega (arith, e, under, inside, le, sp_lem, apart.0)
          ])
          ∙ put_other exc_reason h.mcause (address sp j) (save frame sp (put 2 sp h.regs) h.memory)
              (λ e. elim apart.1 [
                | inl above ↦ omega (arith, e, above, inside, le, sp_lem)
                | inr under ↦ omega (arith, e, under, inside, le, sp_lem)
              ])

  -- The register r behind the trap, but for the stack pointer.
  restored :
      (r : ℕ)
      → 0 < r
      → r < 32
      → r ≢ 2
      → restore frame ((handler entered).regs 2) (handler entered).memory (handler entered).regs r
        ≡ h.regs r
  unfolding entered enter_trap
  restored r lo hi ne =
      let stack_is : (handler entered).regs 2 ≡ sp = keeps.kept entered 2 refl in
      rw stack_is (
        restore-Holds sp (omega (arith, sp_lem, below)) frame (put 2 sp h.regs)
          (handler entered).memory (handler entered).regs r frame-Holds
        ∙ elim (is_kept-saved r lo hi ne) [
          | inl saved ↦ rw saved (put_other 2 sp r h.regs ne)
          | inr (clear, kept) ↦ rw clear (keeps.kept entered r kept ∙ ground (arith, kept, ne))
        ])

  -- If the compiled handler keeps to the calling convention and returns its second argument, the
  -- stack has room for the frame and the words of `__exc_reason` lie apart from it: behind the trap
  -- every register is what it was, execution goes on where it was interrupted, and the word at the
  -- interrupted code's stack pointer holds x31, whatever it held before.
  pub trap_entry_restores :
      (r : ℕ)
      → 0 < r
      → r < 32
      → let h' = trap_entry handler exc_reason h in
        (h'.regs r ≡ h.regs r) × (h'.mepc ≡ h.mepc) × (h'.memory (h.regs 2) ≡ h.regs 31)
  unfolding trap_entry leave_trap entered enter_trap
  trap_entry_restores r lo hi = (
    elim (ℕ_discrete r 2) [
      | yes e ↦ rw e (omega (arith, keeps.kept entered 2 refl, sp_lem, below))
      | no ne ↦
          put_other 2 _ r
            (restore frame ((handler entered).regs 2) (handler entered).memory
              (handler entered).regs)
            ne
          ∙ restored r lo hi ne
    ],
    keeps.result entered,
    ap (handler entered).memory (omega (arith, sp_lem, below))
        ∙ last_word sp (put 2 sp h.regs) (handler entered).memory frame-Holds,
  )
