-- ===== src/Trap/Served.antt =====
-- What serving one interrupt makes of the LEDs and of what is pending.
use trace_fs.Base.{
  ℕ, ◌<◌, ◌≡◌, refl, ap, ◌∙◌, arith, bit_at, Bool, true, false, ◌&&◌, ◌==◌, if◌then◌else◌,
  Bool-cases, inl, inr,
}
use trace_fs.Hal.Bus.{Bus, gpio_data, iar}
use trace_fs.Hal.Irq.{
  Irq, irq_0, irq_1, irq_2, irq_3, irq_code, irq_mask, irq_acknowledge_interrupt,
}
use trace_fs.Hal.Irq.Laws.{pending, pending-parts, same, irq-pending}
use trace_fs.Hal.Led.{Led, led_0, led_1, led_2, led_3, on, off, led_toggle, merge_byte, led_masks}
use trace_fs.Hal.Led.Laws.{drives, each_bit, led_toggle-bits}
use trace_fs.Trap.{served}
use trace_fs.Trap.Board.{IsBoard, IsSame}

-- The LED of an interrupt.
abbrev pub led_of : Irq → Led
led_of irq_0 = led_0
led_of irq_1 = led_1
led_of irq_2 = led_2
led_of irq_3 = led_3

drives-led_of :
    (irq : Irq) (place i : ℕ) → drives (led_of irq) place i ≡ (place == 0 && i == irq_code irq)
drives-led_of irq_0 place i = refl
drives-led_of irq_1 place i = refl
drives-led_of irq_2 place i = refl
drives-led_of irq_3 place i = refl

bit_at-on : (i : ℕ) → i < 8 → bit_at i on ≡ 1
bit_at-on = each_bit (λ i. bit_at i on ≡ 1) (refl, refl, refl, refl, refl, refl, refl, refl)

pub bit_at-off : (i : ℕ) → bit_at i off ≡ 0
bit_at-off i = omega arith

-- An update of the place of irq by what stands there.
unmoved : (irq j : Irq) (f : Irq → Bool) → f irq ≡ false → f j ≡ (if same j irq then false else f j)
unmoved irq j f h = ground arith

module _ (bus : Bus) (laws : IsBoard bus) where
  open laws use {controller, pins}

  -- A byte access to the data register keeps all else.
  merge_byte-kept :
      (f : bus.Device → ℕ) (place mask status : ℕ) (d : bus.Device)
      → ((p v : ℕ) (d : bus.Device) → f (bus.store_byte gpio_data p v d) ≡ f d)
      → f (merge_byte bus place mask status d) ≡ f d
  unfolding merge_byte
  merge_byte-kept f place mask status d h = elim (Bool-cases (mask == 0)) [
    | inl none ↦ rw (pins.load_byte_lem, none) refl
    | inr some ↦ rw (pins.load_byte_lem, some) (h place _ d)
  ]

  led_toggle-kept :
      (f : bus.Device → ℕ) (led : Led) (status : ℕ) (d : bus.Device)
      → ((p v : ℕ) (d : bus.Device) → f (bus.store_byte gpio_data p v d) ≡ f d)
      → f (led_toggle bus led status d) ≡ f d
  unfolding led_toggle
  led_toggle-kept f led status d h =
      merge_byte-kept f 0 (led_masks led).1 status _ h
      ∙ merge_byte-kept f 3 (led_masks led).0 status d h

  -- What is pending depends on the two registers alone.
  pending-kept :
      (j : Irq) (d d' : bus.Device)
      → controller.raised d' ≡ controller.raised d
      → controller.enabled d' ≡ controller.enabled d
      → pending bus j d' ≡ pending bus j d
  pending-kept j d d' er ee =
      rw (pending-parts bus controller, pending-parts bus controller, er, ee) refl

  pending-led_toggle :
      (j : Irq) (led : Led) (status : ℕ) (d : bus.Device)
      → pending bus j (led_toggle bus led status d) ≡ pending bus j d
  pending-led_toggle j led status d =
      pending-kept j d (led_toggle bus led status d)
        (led_toggle-kept controller.raised led status d laws.raised_byte)
        (led_toggle-kept controller.enabled led status d laws.enabled_byte)

  -- Serving an interrupt: its LED shows whether it was pending, it is not pending any more, and all
  -- other bits of the data register and all other interrupts are as before.
  pub record IsServed (irq : Irq) (d d' : bus.Device) : Type 0 where
    pub answered : (j : Irq) → pending bus j d' ≡ (if same j irq then false else pending bus j d)
    pub shown :
        (place i : ℕ)
        → i < 8
        → bit_at i (pins.byte place d') ≡ (
            if place == 0 && i == irq_code irq
            then (if pending bus irq d then 1 else 0)
            else bit_at i (pins.byte place d))

  pub served-IsServed :
      (irq : Irq) (d d' : bus.Device)
      → pending bus irq d ≡ true
      → IsSame bus laws d d'
      → IsServed irq d (served bus irq (led_of irq) d')
  served-IsServed irq d d' p s = record {
    answered = λ j.
        pending-led_toggle j (led_of irq) on _
        ∙ (irq-pending bus controller irq j d').2
        ∙ ap (λ (b : Bool). if same j irq then false else b)
            (pending-kept j d d' s.raised s.enabled);
    shown = λ place i h.
        led_toggle-bits bus pins (led_of irq) on place i _ h
        ∙ rw (drives-led_of irq, bit_at-on i h, p, acknowledged irq place d', s.bytes place) refl;
  }
    where
      acknowledged :
          (irq : Irq) (place : ℕ) (d : bus.Device)
          → pins.byte place (irq_acknowledge_interrupt bus irq d) ≡ pins.byte place d
      acknowledged irq place d =
          unfold irq_acknowledge_interrupt in laws.byte_store place iar (irq_mask irq) d (λ e. cc)

  pub unserved-IsServed :
      (irq : Irq) (d : bus.Device)
      → pending bus irq d ≡ false
      → IsServed irq d (led_toggle bus (led_of irq) off d)
  unserved-IsServed irq d p = record {
    answered = λ j.
        pending-led_toggle j (led_of irq) off d ∙ unmoved irq j (λ (j : Irq). pending bus j d) p;
    shown = λ place i h.
        led_toggle-bits bus pins (led_of irq) off place i d h
        ∙ rw (drives-led_of irq, bit_at-off i, p) refl;
  }
