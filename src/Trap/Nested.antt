-- ===== src/Trap/Nested.antt =====
-- A trap in the epilogue of another: firmware/emsa5/trap.s restores the registers with interrupts
-- enabled, since `handle_trap` of handler.c enables them before it returns.

use trace_fs.Base.{
  ℕ, ◌+◌, ◌-◌, ◌*◌, ◌^◌, ◌≤◌, ◌<◌, ◌≡◌, ◌⊎◌, inl, inr, refl, ◌∙◌, arith, List, [], ◌∷◌, ◌++◌, false,
  u32, ◌==◌,
}
use trace_fs.Trap.Entry.{
  Hart, put, frame, address, save, restore, enter_trap, leave_trap, trap_entry, IsHandler,
}
use trace_fs.Trap.Restored.{put_other, IsApart, trap_entry_restores}

-- The instructions behind the call with a trap among the loads: these registers are restored before
-- the trap, which finds `pc` as the place to return to, and those behind it.
unfoldable pub leave_trap_cut :
    (Hart → Hart) → ℕ → List (ℕ × ℕ) → List (ℕ × ℕ) → ℕ → ℕ → Hart → Hart
leave_trap_cut handler exc_reason front rest cause pc h =
    let regs = restore front (h.regs 2) h.memory h.regs in
    let h1 = record h { mepc = h.regs 10; regs = regs } in
    let h2 = trap_entry handler exc_reason (record h1 { mcause = cause; mepc = pc }) in
    let regs = restore rest (h2.regs 2) h2.memory h2.regs in
    record h2 { regs = put 2 (u32 (regs 2 + 64)) regs }

-- Each word is in the frame and not in front of it, and no register is the stack pointer.
abbrev Within : List (ℕ × ℕ) → Type 0
Within [] = Unit
Within ((r, k) ∷ rest) = ((0 < k) × (k ≤ 16) × ((r == 2) ≡ false)) × Within rest

frame-Within : Within frame
frame-Within = ground arith

Within-append : (l m : List (ℕ × ℕ)) → Within (l ++ m) → Within l × Within m
Within-append [] m h = (tt, h)
Within-append (x ∷ l) m h = ((h.0, (Within-append l m h.1).0), (Within-append l m h.1).1)

restore-append :
    (l m : List (ℕ × ℕ)) (sp : ℕ) (memory regs : ℕ → ℕ)
    → restore (l ++ m) sp memory regs ≡ restore m sp memory (restore l sp memory regs)
unfolding restore
restore-append [] m sp memory regs = refl
restore-append ((r, k) ∷ l) m sp memory regs =
    restore-append l m sp memory (put r (memory (address sp k)) regs)

-- The stack pointer is not among them.
restore-sp :
    (l : List (ℕ × ℕ)) (sp : ℕ) (memory regs : ℕ → ℕ)
    → Within l
    → restore l sp memory regs 2 ≡ regs 2
unfolding restore
restore-sp [] sp memory regs h = refl
restore-sp ((r, k) ∷ l) sp memory regs h =
    restore-sp l sp memory (put r (memory (address sp k)) regs) h.1 ∙ ground (arith, h.0.2)

-- What is restored depends on the registers and on the words of the frame only.
restore-same :
    (l : List (ℕ × ℕ)) (sp : ℕ) (memory memory' regs regs' : ℕ → ℕ) (r : ℕ)
    → Within l
    → ((k : ℕ) → 0 < k → k ≤ 16 → memory' (address sp k) ≡ memory (address sp k))
    → ((r : ℕ) → 0 < r → r < 32 → regs' r ≡ regs r)
    → 0 < r
    → r < 32
    → restore l sp memory' regs' r ≡ restore l sp memory regs r
unfolding restore
restore-same [] sp memory memory' regs regs' r h same equal lo hi = equal r lo hi
restore-same ((q, k) ∷ l) sp memory memory' regs regs' r h same equal lo hi =
    restore-same l sp memory memory' (put q (memory (address sp k)) regs)
      (put q (memory' (address sp k)) regs') r h.1 same
      (λ b lo hi. ground (arith, equal b lo hi, same k h.0.0 h.0.1)) lo hi

-- The words behind a frame are kept.
save-behind :
    (l : List (ℕ × ℕ)) (sp a : ℕ) (regs memory : ℕ → ℕ)
    → Within l
    → sp + 64 < 2 ^ 32
    → sp + 64 < a
    → save l sp regs memory a ≡ memory a
unfolding save
save-behind [] sp a regs memory h fits behind = refl
save-behind ((r, k) ∷ l) sp a regs memory h fits behind =
    save-behind l sp a regs (put (address sp k) (regs r) memory) h.1 fits behind
    ∙ ground (arith, h.0.1, fits, behind)

-- The handler keeps the words of the frame above its own.
abbrev pub KeepsAbove : (Hart → Hart) → ℕ → Type 0
KeepsAbove handler sp =
    (h : Hart) (a : ℕ)
    → h.regs 2 + 64 ≡ sp
    → sp < a
    → a ≤ sp + 64
    → (handler h).memory a ≡ h.memory a

module _ (handler : Hart → Hart) (keeps : IsHandler handler) (exc_reason : ℕ)
    (front rest : List (ℕ × ℕ)) (whole : front ++ rest ≡ frame) (cause pc : ℕ) (h : Hart)
    (room : 64 ≤ h.regs 2) (below : h.regs 2 + 64 < 2 ^ 32)
    (apart : (exc_reason + 4 < 2 ^ 32)
      × ((h.regs 2 + 64 < exc_reason) ⊎ (exc_reason + 68 < h.regs 2)))
    (above : KeepsAbove handler (h.regs 2)) where
  parts : Within front × Within rest
  parts = Within-append front rest (rw whole frame-Within)

  -- Where the second trap comes.
  abbrev cut : Hart
  cut = record h { mepc = pc; regs = restore front (h.regs 2) h.memory h.regs; mcause = cause }

  cut-sp : cut.regs 2 ≡ h.regs 2
  cut-sp = restore-sp front (h.regs 2) h.memory h.regs parts.0

  cut-IsApart : IsApart exc_reason (cut.regs 2)
  cut-IsApart =
      rw cut-sp (apart.0, elim apart.1 [ inl high ↦ inl (omega (arith, high)) | inr low ↦ inr low ])

  nested : (r : ℕ) → 0 < r → r < 32 → (trap_entry handler exc_reason cut).regs r ≡ cut.regs r
  nested r lo hi =
      (trap_entry_restores handler keeps exc_reason cut (rw cut-sp room)
        (omega (arith, cut-sp, below)) cut-IsApart r lo hi).0

  abbrev sp2 : ℕ
  sp2 = u32 (cut.regs 2 + 2 ^ 32 - 64)

  sp2_lem : sp2 + 64 ≡ h.regs 2
  sp2_lem = omega (arith, cut-sp, room, below)

  nested-memory :
      (k : ℕ)
      → 0 < k
      → k ≤ 16
      → (trap_entry handler exc_reason cut).memory (address (h.regs 2) k)
        ≡ h.memory (address (h.regs 2) k)
  unfolding trap_entry leave_trap enter_trap
  nested-memory k lo hi =
      let inside : address (h.regs 2) k ≡ h.regs 2 + k * 4 = omega (arith, hi, below) in
      let regs = put 2 sp2 cut.regs in
      let saved = save frame sp2 regs h.memory in
      above (enter_trap exc_reason cut) (address (h.regs 2) k) sp2_lem (omega (arith, inside, lo))
        (omega (arith, inside, hi))
      ∙ put_other (u32 (exc_reason + 4)) pc (address (h.regs 2) k) (put exc_reason cause saved)
          (λ e. elim apart.1 [
            | inl high ↦ omega (arith, e, high, inside, hi, apart.0)
            | inr low ↦ omega (arith, e, low, inside, lo, apart.0)
          ])
      ∙ put_other exc_reason cause (address (h.regs 2) k) saved (λ e. elim apart.1 [
        | inl high ↦ omega (arith, e, high, inside, hi)
        | inr low ↦ omega (arith, e, low, inside, lo)
      ])
      ∙ save-behind frame sp2 (address (h.regs 2) k) regs h.memory frame-Within
          (omega (arith, sp2_lem, below)) (omega (arith, sp2_lem, inside, lo))

  -- The rest of the loads on a hart that has the registers and the frame of `cut`.
  restore-rest :
      (h2 : Hart)
      → ((r : ℕ) → 0 < r → r < 32 → h2.regs r ≡ cut.regs r)
      → ((k : ℕ)
          → 0 < k
          → k ≤ 16
          → h2.memory (address (h.regs 2) k) ≡ h.memory (address (h.regs 2) k))
      → (r : ℕ) → 0 < r
      → r < 32
      → restore rest (h2.regs 2) h2.memory h2.regs r ≡ restore frame (h.regs 2) h.memory h.regs r
  restore-rest h2 equal same r lo hi =
      rw (equal 2 (omega arith) (omega arith) ∙ cut-sp, ← whole, restore-append)
        (restore-same rest (h.regs 2) h.memory h2.memory cut.regs h2.regs r parts.1 same equal lo
          hi)

  popped :
      (f g : ℕ → ℕ) (r : ℕ)
      → f 2 ≡ g 2
      → f r ≡ g r
      → put 2 (u32 (f 2 + 64)) f r ≡ put 2 (u32 (g 2 + 64)) g r
  popped f g r e k = ground (arith, e, k)

  -- If the compiled handler keeps to the calling convention, the stack has room for a second frame,
  -- and the words of `__exc_reason` lie apart: with a second trap at any place among the loads of the
  -- epilogue, every register is restored as without it, the stack pointer included, but `mret` goes
  -- to the place `pc` in the epilogue, and not to where the first trap came from.
  pub leave_trap_cut-mepc :
      (r : ℕ)
      → 0 < r
      → r < 32
      → let h' = leave_trap_cut handler exc_reason front rest cause pc h in
        (h'.mepc ≡ pc) × (h'.regs r ≡ (leave_trap h).regs r)
  unfolding leave_trap_cut leave_trap
  leave_trap_cut-mepc r lo hi =
      let h2 = trap_entry handler exc_reason cut in
      (
        (trap_entry_restores handler keeps exc_reason cut (rw cut-sp room)
            (omega (arith, cut-sp, below)) cut-IsApart 1 (omega arith) (omega arith)).1,
        popped (restore rest (h2.regs 2) h2.memory h2.regs)
            (restore frame (h.regs 2) h.memory h.regs) r
            (restore-rest h2 nested nested-memory 2 (omega arith) (omega arith))
            (restore-rest h2 nested nested-memory r lo hi),
      )
