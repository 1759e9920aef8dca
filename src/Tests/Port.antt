-- ===== src/Tests/Port.antt =====
-- A GPIO controller as a concrete bus: its registers by their offsets.
use trace_fs.Base.{ℕ, ◌%◌, ◌==◌, if◌then◌else◌, arith, ◌≡◌, refl}
use trace_fs.Hal.Bus.{Bus, Reg, gpio, peripheral, offset, ipisr}
use trace_fs.Hal.Gpio.Laws.{IsGpioPort, put, written}

-- The status register has one bit.
abbrev cell : ℕ → (ℕ → ℕ) → ℕ
cell n d = if n == offset ipisr then d n % 2 else d n

abbrev port : Bus
port = record {
  Device = ℕ → ℕ;
  load = λ r d. (cell (offset r) d, d);
  store = λ q v d n. if n == offset q then written q v (cell n d) else d n;
  load_byte = λ r p d. (0, d);
  store_byte = λ r p v d. d;
}

port-put :
    (r q : Reg) (v : ℕ) (d : ℕ → ℕ)
    → peripheral q ≡ gpio
    → cell (offset r) (port.store q v d) ≡ put q v r (cell (offset r) d)
port-put r q v d h = ground arith

abbrev port-IsGpioPort : IsGpioPort port
port-IsGpioPort = record {
  value = λ r d. cell (offset r) d;
  load_ipisr = λ d. refl;
  status_lt = λ d. omega arith;
  store_lem = λ r q v d hr hq. port-put r q v d hq;
}
