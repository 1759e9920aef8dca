-- ===== src/Tests/Drivers.antt =====
-- A board as a concrete bus: a timer, four bytes of GPIO data, and a pending register.
use trace_fs.Base.{ℕ, ◌+◌, ◌-◌, ◌*◌, ◌/◌, ◌%◌, ◌^◌, ◌==◌, if◌then◌else◌, bit_at, arith, ◌≡◌, refl}
use trace_fs.Hal.Bus.{Bus, Reg, tcsr0, tlr0, ipr, gpio_data}
use trace_fs.Hal.Timer.{timer_0, timer_configure_periodic_timer}
use trace_fs.Hal.Timer.Laws.{IsTimer, timer_configure_periodic_timer-status}
use trace_fs.Hal.Led.Laws.{IsGpioData}

pub record Board : Type 0 where
  pub status : ℕ
  pub reload : ℕ
  pub pending : ℕ
  pub bytes : ℕ → ℕ

abbrev pub board_load : Reg → Board → ℕ × Board
board_load tcsr0 d = (d.status, d)
board_load ipr d = (d.pending, d)
board_load _ d = (0, d)

abbrev pub board_store : Reg → ℕ → Board → Board
board_store tcsr0 v d = record d {
  status = v / 2 ^ 9 * 2 ^ 9 + (bit_at 8 d.status - bit_at 8 v) * 2 ^ 8 + v % 2 ^ 8;
}
board_store tlr0 v d = record d { reload = v }
board_store _ v d = d

abbrev pub board_load_byte : Reg → ℕ → Board → ℕ × Board
board_load_byte gpio_data p d = (d.bytes p, d)
board_load_byte _ p d = (0, d)

abbrev pub board_store_byte : Reg → ℕ → ℕ → Board → Board
board_store_byte gpio_data q v d = record d { bytes = λ p. if p == q then v else d.bytes p }
board_store_byte _ q v d = d

abbrev pub board : Bus
board = record {
  Device = Board;
  load = board_load;
  store = board_store;
  load_byte = board_load_byte;
  store_byte = board_store_byte;
}

abbrev board-IsTimer : IsTimer board
board-IsTimer = record {
  status = λ d. d.status;
  reload = λ d. d.reload;
  load_tcsr0 = λ d. refl;
  store_tcsr0 = λ v d. refl;
  reload_tcsr0 = λ v d. refl;
  store_tlr0 = λ v d. refl;
  status_tlr0 = λ v d. refl;
}

abbrev board-IsGpioData : IsGpioData board
board-IsGpioData = record {
  byte = λ p d. d.bytes p;
  load_byte_lem = λ p d. refl;
  store_byte_lem = λ p q v d. refl;
}

-- A timer that runs and has an interrupt pending.
abbrev pub expired : Board
expired = record { status = 0x1d0; reload = 7; pending = 1; bytes = λ p. 0x5a }

timer_configure_periodic_timer-status_example :
    let d' = timer_configure_periodic_timer board timer_0 25000 expired in
    (d'.status ≡ 2 ^ 7 + 2 ^ 6 + 2 ^ 4) × (d'.reload + 25000 * 100 ≡ 2 ^ 32 - 1)
timer_configure_periodic_timer-status_example =
    timer_configure_periodic_timer-status board board-IsTimer 25000 expired (omega arith)
