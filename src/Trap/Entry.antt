-- ===== src/Trap/Entry.antt =====
-- firmware/emsa5/trap.s: `trap_entry`, which saves registers on the interrupted code's stack, calls
-- `handle_trap`, and restores them. The compiled handler is a parameter that keeps to the calling
-- convention.

use trace_fs.Base.{
  ℕ, ◌+◌, ◌-◌, ◌*◌, ◌^◌, ◌≤◌, ◌≡◌, List, [], ◌∷◌, Bool, true, ◌&&◌, ◌||◌, u32, leb, ◌==◌,
  if◌then◌else◌,
}

-- The registers x0 to x31, the word at each address, and the two CSRs.
pub record Hart : Type 0 where
  pub regs : ℕ → ℕ
  pub memory : ℕ → ℕ
  pub mcause : ℕ
  pub mepc : ℕ

abbrev pub put : ℕ → ℕ → (ℕ → ℕ) → ℕ → ℕ
put a v f b = if b == a then v else f b

-- The registers that are saved, with the word of the frame that each goes to.
abbrev pub frame : List (ℕ × ℕ)
frame =
    (1, 1)
    ∷ (5, 2)
    ∷ (6, 3)
    ∷ (7, 4)
    ∷ (10, 5)
    ∷ (11, 6)
    ∷ (12, 7)
    ∷ (13, 8)
    ∷ (14, 9)
    ∷ (15, 10)
    ∷ (16, 11)
    ∷ (17, 12)
    ∷ (28, 13)
    ∷ (29, 14)
    ∷ (30, 15)
    ∷ (31, 16)
    ∷ []

-- `k*4(sp)`
abbrev pub address : ℕ → ℕ → ℕ
address sp k = u32 (sp + k * 4)

unfoldable pub save : List (ℕ × ℕ) → ℕ → (ℕ → ℕ) → (ℕ → ℕ) → ℕ → ℕ
save [] sp regs memory = memory
save ((r, k) ∷ rest) sp regs memory = save rest sp regs (put (address sp k) (regs r) memory)

unfoldable pub restore : List (ℕ × ℕ) → ℕ → (ℕ → ℕ) → (ℕ → ℕ) → ℕ → ℕ
restore [] sp memory regs = regs
restore ((r, k) ∷ rest) sp memory regs = restore rest sp memory (put r (memory (address sp k)) regs)

-- Up to `call handle_trap`.
unfoldable pub enter_trap : ℕ → Hart → Hart
unfolding save
enter_trap exc_reason h =
    let sp = u32 (h.regs 2 + 2 ^ 32 - 64) in
    let regs = put 2 sp h.regs in
    let memory = save frame sp regs h.memory in
    let regs = put 14 exc_reason (put 11 h.mepc (put 10 h.mcause regs)) in
    record h {
      regs = regs;
      memory = put (u32 (exc_reason + 4)) (regs 11) (put exc_reason (regs 10) memory);
    }

-- Behind the call, up to `mret`.
unfoldable pub leave_trap : Hart → Hart
unfolding restore
leave_trap h =
    let regs = restore frame (h.regs 2) h.memory h.regs in
    record h { mepc = h.regs 10; regs = put 2 (u32 (regs 2 + 64)) regs }

unfoldable pub trap_entry : (Hart → Hart) → ℕ → Hart → Hart
unfolding enter_trap leave_trap
trap_entry handler exc_reason h = leave_trap (handler (enter_trap exc_reason h))

-- sp, gp, tp and s0 to s11.
abbrev pub is_kept : ℕ → Bool
is_kept r = (leb 2 r && leb r 4) || ((leb 8 r && leb r 9) || (leb 18 r && leb r 27))

-- The calling convention, for a function that returns its second argument: it keeps these registers
-- and the caller's words from the stack pointer on.
pub record IsHandler (handler : Hart → Hart) : Type 0 where
  pub kept : (h : Hart) (r : ℕ) → is_kept r ≡ true → (handler h).regs r ≡ h.regs r
  pub result : (h : Hart) → (handler h).regs 10 ≡ h.regs 11
  pub stack :
      (h : Hart) (a : ℕ) → h.regs 2 ≤ a → a ≤ h.regs 2 + 64 → (handler h).memory a ≡ h.memory a
