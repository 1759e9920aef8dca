-- ===== src/Hal/Irq/Laws.antt =====
-- What the driver of the interrupt controller makes of its enable and status registers (PG099).
use trace_fs.Base.{
  ℕ, ◌≡◌, ap, ◌∙◌, arith, bit_at, bit_and, bit_or, bit_not, Bool, true, false, ◌&&◌, ◌==◌,
  if◌then◌else◌, ◌<◌,
}
use trace_fs.Bits.{bit_at-bit_and, bit_at-bit_or}
use trace_fs.Bits.Field.{bit_and_field}
use trace_fs.Hal.Bus.{Bus, ipr, ier, iar}
use trace_fs.Hal.Irq.{
  Irq, irq_0, irq_1, irq_2, irq_3, irq_code, irq_mask, irq_enable_interrupt, irq_disable_interrupt,
  irq_acknowledge_interrupt, irq_is_pending_interrupt,
}

-- IER holds what was written to it, IPR is the status register masked by it, and a 1 written to
-- IAR clears the status bit of its place.
pub record IsIntc (bus : Bus) : Type 0 where
  pub enabled : bus.Device → ℕ
  pub raised : bus.Device → ℕ
  pub load_ier : (d : bus.Device) → bus.load ier d ≡ (enabled d, d)
  pub load_ipr : (d : bus.Device) → bus.load ipr d ≡ (bit_and (raised d) (enabled d), d)
  pub enabled_ier : (v : ℕ) (d : bus.Device) → enabled (bus.store ier v d) ≡ v
  pub raised_ier : (v : ℕ) (d : bus.Device) → raised (bus.store ier v d) ≡ raised d
  pub enabled_iar : (v : ℕ) (d : bus.Device) → enabled (bus.store iar v d) ≡ enabled d
  pub raised_iar :
      (v i : ℕ) (d : bus.Device)
      → i < 4
      → bit_at i (raised (bus.store iar v d)) ≡ (if bit_at i v == 1 then 0 else bit_at i (raised d))

-- The test of one bit by a mask.
test_mask : (irq : Irq) (v : ℕ) → (bit_and v (irq_mask irq) == 0) ≡ (bit_at (irq_code irq) v == 0)
test_mask irq_0 v = ground (arith, bit_and_field 1 0 v)
test_mask irq_1 v = ground (arith, bit_and_field 1 1 v)
test_mask irq_2 v = ground (arith, bit_and_field 1 2 v)
test_mask irq_3 v = ground (arith, bit_and_field 1 3 v)

-- Bit `irq` of a register is set.
abbrev pub is_on : Irq → ℕ → Bool
is_on irq v = bit_at (irq_code irq) v == 1

abbrev pub same : Irq → Irq → Bool
same j irq = irq_code j == irq_code irq

is_on-and :
    (irq : Irq) (a b : ℕ)
    → (if bit_and (bit_and a b) (irq_mask irq) == 0 then false else true)
      ≡ (is_on irq a && is_on irq b)
is_on-and irq a b = ground (arith, test_mask irq (bit_and a b), bit_at-bit_and (irq_code irq) a b)

is_on-enable :
    (irq j : Irq) (v : ℕ)
    → is_on j (bit_or v (irq_mask irq)) ≡ (if same j irq then true else is_on j v)
is_on-enable irq j v = ground (arith, bit_at-bit_or (irq_code j) v (irq_mask irq))

is_on-disable :
    (irq j : Irq) (v : ℕ)
    → is_on j (bit_and v (bit_and (bit_not (irq_mask irq)) 0xf))
      ≡ (if same j irq then false else is_on j v)
is_on-disable irq j v =
    ground (arith, bit_at-bit_and (irq_code j) v (bit_and (bit_not (irq_mask irq)) 0xf))

-- A condition under `&&`.
if-and :
    (c r e : Bool)
    → ((r && (if c then true else e)) ≡ (if c then r else r && e))
      × ((r && (if c then false else e)) ≡ (if c then false else r && e))
      × (((if c then false else r) && e) ≡ (if c then false else r && e))
if-and c r e = ground arith

abbrev pub pending : (bus : Bus) → Irq → bus.Device → Bool
pending bus irq d = (irq_is_pending_interrupt bus irq d).0

module _ (bus : Bus) (laws : IsIntc bus) where
  open laws use {
    enabled, raised, load_ier, load_ipr, enabled_ier, raised_ier, enabled_iar, raised_iar,
  }

  -- Reading whether an interrupt is pending keeps the device.
  pub pending_lem :
      (irq : Irq) (d : bus.Device)
      → irq_is_pending_interrupt bus irq d ≡ (is_on irq (raised d) && is_on irq (enabled d), d)
  unfolding irq_is_pending_interrupt
  pending_lem irq d = rw load_ipr (ap (λ (b : Bool). (b, d)) (is_on-and irq (raised d) (enabled d)))

  pub pending-parts :
      (irq : Irq) (d : bus.Device)
      → pending bus irq d ≡ (is_on irq (raised d) && is_on irq (enabled d))
  pending-parts irq d = ap (λ (r : Bool × bus.Device). r.0) (pending_lem irq d)

  pending-ier :
      (j : Irq) (v : ℕ) (d : bus.Device)
      → pending bus j (bus.store ier v d) ≡ (is_on j (raised d) && is_on j v)
  pending-ier j v d =
      pending-parts j (bus.store ier v d)
      ∙ ap (λ (r : ℕ). is_on j r && is_on j (enabled (bus.store ier v d))) (raised_ier v d)
      ∙ ap (λ (e : ℕ). is_on j (raised d) && is_on j e) (enabled_ier v d)

  pub raised-acknowledge :
      (irq j : Irq) (d : bus.Device)
      → is_on j (raised (irq_acknowledge_interrupt bus irq d))
        ≡ (if same j irq then false else is_on j (raised d))
  unfolding irq_acknowledge_interrupt
  raised-acknowledge irq j d = ground (arith, raised_iar (irq_mask irq) (irq_code j) d)

  -- For every interrupt and every state of the controller: behind its enabling an interrupt is
  -- pending exactly if its status bit is set, behind its disabling and its acknowledgement it is not
  -- pending, and each of the three keeps what is pending of the other interrupts.
  pub irq-pending :
      (irq j : Irq) (d : bus.Device)
      → (pending bus j (irq_enable_interrupt bus irq d)
          ≡ (if same j irq then is_on j (raised d) else pending bus j d))
        × (pending bus j (irq_disable_interrupt bus irq d)
            ≡ (if same j irq then false else pending bus j d))
        × (pending bus j (irq_acknowledge_interrupt bus irq d)
            ≡ (if same j irq then false else pending bus j d))
  unfolding irq_enable_interrupt irq_disable_interrupt irq_acknowledge_interrupt
  irq-pending irq j d = (
    rw (irq_enable_interrupt, load_ier, pending-ier, is_on-enable, pending-parts)
        (if-and (same j irq) (is_on j (raised d)) (is_on j (enabled d))).0,
    rw (irq_disable_interrupt, load_ier, pending-ier, is_on-disable, pending-parts)
        (if-and (same j irq) (is_on j (raised d)) (is_on j (enabled d))).1,
    rw (pending-parts, pending-parts, raised-acknowledge irq j d, enabled_iar)
        (if-and (same j irq) (is_on j (raised d)) (is_on j (enabled d))).2,
  )
