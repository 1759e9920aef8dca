-- ===== src/Tests/Panel.antt =====
-- Two concrete boards: an interrupt controller with the pins of the LEDs, and a GPIO controller.
use trace_fs.Base.{
  ℕ, zero, suc, ◌-◌, ◌%◌, ◌<◌, bit_at, bit_and, ◌==◌, if◌then◌else◌, arith, ◌≡◌, ◌≢◌, refl,
}
use trace_fs.Bits.{bit_at-bit_and}
use trace_fs.Hal.Bus.{Bus, Reg, intc, peripheral, ier, iar, ipr}
use trace_fs.Trap.Board.{IsBoard}

pub record Panel : Type 0 where
  pub raised : ℕ
  pub enabled : ℕ
  pub bytes : ℕ → ℕ

abbrev reading : Reg → Panel → ℕ
reading ier d = d.enabled
reading ipr d = bit_and d.raised d.enabled
reading _ d = 0

abbrev raised_after : Reg → ℕ → ℕ → ℕ
raised_after iar v raised = bit_and raised (15 - v % 16)
raised_after _ v raised = raised

abbrev enabled_after : Reg → ℕ → ℕ → ℕ
enabled_after ier v enabled = v
enabled_after _ v enabled = enabled

abbrev pub panel : Bus
panel = record {
  Device = Panel;
  load = λ r d. (reading r d, d);
  store = λ r v d. record d {
    raised = raised_after r v d.raised;
    enabled = enabled_after r v d.enabled;
  };
  load_byte = λ r p d. (d.bytes p, d);
  store_byte = λ r q v d. record d { bytes = λ p. if p == q then v else d.bytes p };
}

pub four_bits :
    (v i x : ℕ)
    → i < 4
    → bit_at i (bit_and x (15 - v % 16)) ≡ (if bit_at i v == 1 then 0 else bit_at i x)
four_bits v zero x h = ground (arith, bit_at-bit_and 0 x (15 - v % 16))
four_bits v (suc zero) x h = ground (arith, bit_at-bit_and 1 x (15 - v % 16))
four_bits v (suc (suc zero)) x h = ground (arith, bit_at-bit_and 2 x (15 - v % 16))
four_bits v (suc (suc (suc zero))) x h = ground (arith, bit_at-bit_and 3 x (15 - v % 16))
four_bits v (suc (suc (suc (suc i)))) x h = absurd (omega arith)

pub raised-after : (r : Reg) (v x : ℕ) → peripheral r ≢ intc → raised_after r v x ≡ x
raised-after r v x h = ground arith

pub enabled-after : (r : Reg) (v x : ℕ) → peripheral r ≢ intc → enabled_after r v x ≡ x
enabled-after r v x h = ground arith

abbrev pub panel-IsBoard : IsBoard panel
panel-IsBoard = record {
  controller = record {
    enabled = λ d. d.enabled;
    raised = λ d. d.raised;
    load_ier = λ d. refl;
    load_ipr = λ d. refl;
    enabled_ier = λ v d. refl;
    raised_ier = λ v d. refl;
    enabled_iar = λ v d. refl;
    raised_iar = λ v i d. four_bits v i d.raised;
  };
  pins = record {
    byte = λ p d. d.bytes p;
    load_byte_lem = λ p d. refl;
    store_byte_lem = λ p q v d. refl;
  };
  raised_load = λ r d h. refl;
  raised_store = λ r v d. raised-after r v d.raised;
  raised_byte = λ p v d. refl;
  enabled_load = λ r d h. refl;
  enabled_store = λ r v d. enabled-after r v d.enabled;
  enabled_byte = λ p v d. refl;
  byte_load = λ p r d h. refl;
  byte_store = λ p r v d h. refl;
}
