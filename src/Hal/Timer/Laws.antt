-- ===== src/Hal/Timer/Laws.antt =====
-- The timer driver on a timer that behaves as its documentation (PG079) says.
use trace_fs.Base.{ℕ, ◌+◌, ◌-◌, ◌*◌, ◌/◌, ◌%◌, ◌^◌, ◌<◌, ◌≡◌, arith, bit_at, bit_or, ap}
use trace_fs.Bits.{bit_or_bit}
use trace_fs.Hal.Bus.{Bus, tcsr0, tlr0}
use trace_fs.Hal.Timer.{
  timer_0, put_bit, t0int, ent0, enit0, periodic_bits, reload_value, timer_acknowledge_timer,
  timer_configure_periodic_timer, timer_disable_timer,
}

-- TCSR0 reads back what was written, but for T0INT, which a written 1 clears and a written 0
-- leaves; TLR0 is storage.
pub record IsTimer (bus : Bus) : Type 0 where
  pub status : bus.Device → ℕ
  pub reload : bus.Device → ℕ
  pub load_tcsr0 : (d : bus.Device) → bus.load tcsr0 d ≡ (status d, d)
  pub store_tcsr0 :
      (v : ℕ) (d : bus.Device)
      → status (bus.store tcsr0 v d)
        ≡ v / 2 ^ 9 * 2 ^ 9 + (bit_at 8 (status d) - bit_at 8 v) * 2 ^ 8 + v % 2 ^ 8
  pub reload_tcsr0 : (v : ℕ) (d : bus.Device) → reload (bus.store tcsr0 v d) ≡ reload d
  pub store_tlr0 : (v : ℕ) (d : bus.Device) → reload (bus.store tlr0 v d) ≡ v
  pub status_tlr0 : (v : ℕ) (d : bus.Device) → status (bus.store tlr0 v d) ≡ status d

-- The bit-field store for TIMER_0 and the `|` for TIMER_1 set the same bit of the word read.
put_bit-t0int : (v : ℕ) → put_bit t0int 1 v ≡ bit_or v 0x100
unfolding put_bit
put_bit-t0int v = omega (arith, bit_or_bit 8 v)

periodic_bits_lem : (v : ℕ) → periodic_bits v ≡ v / 2 ^ 8 * 2 ^ 8 + (2 ^ 7 + 2 ^ 6 + 2 ^ 4)
unfolding periodic_bits
periodic_bits_lem v = omega arith

module _ (bus : Bus) (laws : IsTimer bus) where
  open laws use {status, reload, load_tcsr0, store_tcsr0, reload_tcsr0, store_tlr0, status_tlr0}

  -- Reads as documented leave the stores.
  acknowledged :
      (d : bus.Device)
      → timer_acknowledge_timer bus timer_0 d ≡ bus.store tcsr0 (put_bit t0int 1 (status d)) d
  unfolding timer_acknowledge_timer
  acknowledged d =
      ap (λ (r : ℕ × bus.Device). bus.store tcsr0 (put_bit t0int 1 r.0) r.1) (load_tcsr0 d)

  disabled :
      (d : bus.Device)
      → timer_disable_timer bus timer_0 d
        ≡ bus.store tcsr0 (put_bit enit0 0 (put_bit ent0 0 (status d))) d
  unfolding timer_disable_timer
  disabled d =
      ap (λ (r : ℕ × bus.Device). bus.store tcsr0 (put_bit enit0 0 (put_bit ent0 0 r.0)) r.1)
        (load_tcsr0 d)

  abbrev loaded : ℕ → bus.Device → bus.Device
  loaded period_in_us d = bus.store tlr0 (reload_value period_in_us) (bus.store tcsr0 0x100 d)

  configured :
      (period_in_us : ℕ) (d : bus.Device)
      → let ready = bus.store tcsr0 0x20 (loaded period_in_us d) in
        timer_configure_periodic_timer bus timer_0 period_in_us d
        ≡ bus.store tcsr0 (periodic_bits (status ready)) ready
  unfolding timer_configure_periodic_timer
  configured period_in_us d =
      ap (λ (r : ℕ × bus.Device). bus.store tcsr0 (periodic_bits r.0) r.1)
        (load_tcsr0 (bus.store tcsr0 0x20 (loaded period_in_us d)))

  -- On a timer as documented, acknowledging TIMER_0 clears the interrupt flag and changes no
  -- other bit of TCSR0 and not the reload value.
  pub timer_acknowledge_timer-status :
      (d : bus.Device)
      → let d' = timer_acknowledge_timer bus timer_0 d in
        (bit_at 8 (status d') ≡ 0)
        × (status d' / 2 ^ 9 ≡ status d / 2 ^ 9)
        × (status d' % 2 ^ 8 ≡ status d % 2 ^ 8)
        × (reload d' ≡ reload d)
  unfolding put_bit
  timer_acknowledge_timer-status d =
      let v = put_bit t0int 1 (status d) in
      rw (acknowledged d) (omega (arith, store_tcsr0 v d, reload_tcsr0 v d))

  -- On a timer as documented, disabling TIMER_0 clears ENT0 and ENIT0 and drops a pending
  -- interrupt; the other bits of TCSR0 and the reload value stay.
  pub timer_disable_timer-status :
      (d : bus.Device)
      → let d' = timer_disable_timer bus timer_0 d in
        (bit_at 7 (status d') ≡ 0)
        × (bit_at 6 (status d') ≡ 0)
        × (bit_at 8 (status d') ≡ 0)
        × (status d' / 2 ^ 9 ≡ status d / 2 ^ 9)
        × (status d' % 2 ^ 6 ≡ status d % 2 ^ 6)
        × (reload d' ≡ reload d)
  unfolding put_bit
  timer_disable_timer-status d =
      let v = put_bit enit0 0 (put_bit ent0 0 (status d)) in
      rw (disabled d) (omega (arith, store_tcsr0 v d, reload_tcsr0 v d))

  -- On a timer as documented and for a period whose cycles fit 32 bits, TIMER_0 ends up with
  -- exactly ENT0, ENIT0 and ARHT0 set, no interrupt pending, and a reload value that many cycles
  -- below the largest count.
  pub timer_configure_periodic_timer-status :
      (period_in_us : ℕ) (d : bus.Device)
      → period_in_us * 100 < 2 ^ 32
      → let d' = timer_configure_periodic_timer bus timer_0 period_in_us d in
        (status d' ≡ 2 ^ 7 + 2 ^ 6 + 2 ^ 4) × (reload d' + period_in_us * 100 ≡ 2 ^ 32 - 1)
  unfolding reload_value
  timer_configure_periodic_timer-status period_in_us d h =
      let reset = bus.store tcsr0 0x100 d in
      let ready = bus.store tcsr0 0x20 (loaded period_in_us d) in
      rw (configured period_in_us d) (
        omega (
          arith,
          store_tcsr0 0x100 d,
          status_tlr0 (reload_value period_in_us) reset,
          store_tlr0 (reload_value period_in_us) reset,
          store_tcsr0 0x20 (loaded period_in_us d),
          reload_tcsr0 0x20 (loaded period_in_us d),
          periodic_bits_lem (status ready),
          store_tcsr0 (periodic_bits (status ready)) ready,
          reload_tcsr0 (periodic_bits (status ready)) ready,
        ))
