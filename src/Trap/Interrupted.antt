-- ===== src/Trap/Interrupted.antt =====
-- An LED is set by code that traps interrupt between its read and its write of the data register.
use native.Mathlib.Decide.{ℕ_discrete}
use trace_fs.Base.{
  ℕ, zero, suc, ◌<◌, ◌≡◌, refl, ap, ◌∙◌, arith, List, [], ◌∷◌, bit_and, bit_at, Bool, true, false,
  ◌&&◌, ltb, ◌==◌, Bool-cases, inl, inr,
}
use trace_fs.Hal.Bus.{Bus, gpio_data}
use trace_fs.Hal.Irq.{irq_0}
use trace_fs.Hal.Led.{
  Led, led_0, led_1, led_2, led_3, led_block_0, led_block_1, led_uf_1, led_uf_2, merge, merge_byte,
  led_toggle,
}
use trace_fs.Hal.Led.Laws.{merge-bits, merge_byte-bits}
use trace_fs.Trap.{Firmware, handle_trap}
use trace_fs.Trap.Board.{IsBoard}
use trace_fs.Trap.Leds.{handle_trap-shows}
use trace_fs.Trap.Interruptible.{
  Arrival, Running, take_trap, take_traps, interrupt_by, interrupt, interrupt_twice, interruptible,
}

-- The bits of the data register that the trap handler writes: LED_0 to LED_3.
abbrev pub is_handlers : ℕ → ℕ → Bool
is_handlers place i = place == 0 && ltb i 4

-- The LEDs that the code outside the trap handler sets.
abbrev pub is_outside : Led → Bool
is_outside led_0 = false
is_outside led_1 = false
is_outside led_2 = false
is_outside led_3 = false
is_outside led_block_0 = true
is_outside led_block_1 = true
is_outside led_uf_1 = true
is_outside led_uf_2 = true

-- The mask of LED_BLOCK_1.
low_mask : (i : ℕ) → is_handlers 0 i ≡ true → (bit_at i 0x0f == 1) ≡ true
low_mask zero h = refl
low_mask (suc zero) h = refl
low_mask (suc (suc zero)) h = refl
low_mask (suc (suc (suc zero))) h = refl
low_mask (suc (suc (suc (suc i)))) h = absurd (ground arith)

module _ (bus : Bus) (laws : IsBoard bus) where
  open laws use {pins}

  -- What arrives at the peripherals does not change the outputs.
  abbrev pub IsQuiet : Arrival bus → Type 0
  IsQuiet a = (p : ℕ) (d : bus.Device) → pins.byte p (a.arrive d) ≡ pins.byte p d

  abbrev pub AllQuiet : List (Arrival bus) → Type 0
  AllQuiet [] = Unit
  AllQuiet (a ∷ rest) = IsQuiet a × AllQuiet rest

  abbrev pub AllDueQuiet : List (List (Arrival bus)) → Type 0
  AllDueQuiet [] = Unit
  AllDueQuiet (first ∷ due) = AllQuiet first × AllDueQuiet due

  take_trap-bit :
      (a : Arrival bus) (f : Firmware bus) (place i : ℕ)
      → IsQuiet a
      → i < 8
      → is_handlers place i ≡ false
      → bit_at i (pins.byte place (take_trap bus a f).device) ≡ bit_at i (pins.byte place f.device)
  unfolding handle_trap
  take_trap-bit a f place i quiet lt other = elim (Bool-cases (bit_and a.mcause 0x8000_0000 == 0)) [
    | inl exception ↦ rw exception (ap (bit_at i) (quiet place f.device))
    | inr interrupt ↦
        (handle_trap-shows bus laws a.mcause a.mepc (record f { device = a.arrive f.device }) irq_0
          place i interrupt lt).0
        ∙ rw other (ap (bit_at i) (quiet place f.device))
  ]

  take_traps-bit :
      (arrivals : List (Arrival bus)) (f : Firmware bus) (place i : ℕ)
      → AllQuiet arrivals
      → i < 8
      → is_handlers place i ≡ false
      → bit_at i (pins.byte place (take_traps bus arrivals f).device)
        ≡ bit_at i (pins.byte place f.device)
  unfolding take_traps
  take_traps-bit [] f place i quiet lt other = refl
  take_traps-bit (a ∷ rest) f place i quiet lt other =
      take_traps-bit rest (take_trap bus a f) place i quiet.1 lt other
      ∙ take_trap-bit a f place i quiet.0 lt other

  interrupt_by-bit :
      (due : List (List (Arrival bus))) (f : Firmware bus) (place i : ℕ)
      → AllDueQuiet due
      → i < 8
      → is_handlers place i ≡ false
      → bit_at i (pins.byte place (interrupt_by bus due f).firmware.device)
        ≡ bit_at i (pins.byte place f.device)
  interrupt_by-bit [] f place i quiet lt other = refl
  interrupt_by-bit (first ∷ due) f place i quiet lt other =
      take_traps-bit first f place i quiet.0 lt other

  later_quiet :
      (due : List (List (Arrival bus))) (f : Firmware bus)
      → AllDueQuiet due
      → AllDueQuiet (interrupt_by bus due f).due
  later_quiet [] f quiet = quiet
  later_quiet (first ∷ due) f quiet = quiet.1

  merge_byte-interrupted :
      (place mask status : ℕ) (s : Running bus)
      → (mask == 0) ≡ false
      → merge_byte (interruptible bus) place mask status s ≡ (
          let s2 = interrupt_twice bus s in
          let old = pins.byte place (interrupt bus s).firmware.device in
          record s2 {
            firmware = record s2.firmware {
              device = bus.store_byte gpio_data place (merge old mask status) s2.firmware.device;
            };
          })
  unfolding merge_byte
  merge_byte-interrupted place mask status s used = rw (used, pins.load_byte_lem) refl

  -- The bits behind an interrupted merge, where the mask covers what the trap handler writes.
  merge_byte-serial :
      (place mask status p i : ℕ) (s : Running bus)
      → (mask == 0) ≡ false
      → mask < 256
      → AllDueQuiet s.due
      → i < 8
      → (is_handlers place i ≡ true → (bit_at i mask == 1) ≡ true)
      → bit_at i (pins.byte p (merge_byte (interruptible bus) place mask status s).firmware.device)
        ≡ bit_at i
            (pins.byte p (merge_byte bus place mask status (interrupt_twice bus s).firmware.device))
  merge_byte-serial place mask status p i s used small quiet lt covers =
      rw
        (
          merge_byte-interrupted place mask status s used,
          pins.store_byte_lem,
          merge_byte-bits bus pins p place mask status i (interrupt_twice bus s).firmware.device
              small lt,
        )
        (elim (ℕ_discrete p place) [
          | yes e ↦ rw e (ground (arith, merge-bits old mask status i small lt, kept))
          | no ne ↦ ground arith
        ])
    where
      old : ℕ
      old = pins.byte place (interrupt bus s).firmware.device

      kept :
          (bit_at i mask == 1) ≡ false
          → bit_at i (pins.byte place (interrupt_twice bus s).firmware.device)
            ≡ bit_at i (pins.byte place (interrupt bus s).firmware.device)
      kept outside = elim (Bool-cases (is_handlers place i)) [
        | inl handlers ↦ absurd (cc (outside, covers handlers))
        | inr other ↦
            interrupt_by-bit (interrupt bus s).due (interrupt bus s).firmware place i
              (later_quiet s.due s.firmware quiet) lt other
      ]

  merge_serial :
      (place mask status p i : ℕ) (s : Running bus)
      → (mask == 0) ≡ false
      → mask < 256
      → AllDueQuiet s.due
      → i < 8
      → (is_handlers place i ≡ true → (bit_at i mask == 1) ≡ true)
      → let s' = merge_byte (interruptible bus) place mask status s in
        let f = (interrupt_twice bus s).firmware in
        (bit_at i (pins.byte p s'.firmware.device)
          ≡ bit_at i (pins.byte p (merge_byte bus place mask status f.device)))
        × (s'.firmware ≡ record f { device = s'.firmware.device })
  merge_serial place mask status p i s used small quiet lt covers = (
    merge_byte-serial place mask status p i s used small quiet lt covers,
    rw (merge_byte-interrupted place mask status s used) refl,
  )

  -- For the LEDs that the code outside the trap handler sets, and any traps between the accesses
  -- that leave the outputs alone: a toggle that the traps interrupt makes the bits of the data
  -- register what the traps, and then the toggle at one stroke, make of them, so that neither loses
  -- what the other wrote; the rest of the firmware's state is what the traps make of it.
  pub led_toggle-serial :
      (led : Led) (status place i : ℕ) (s : Running bus)
      → is_outside led ≡ true
      → AllDueQuiet s.due
      → i < 8
      → let s' = led_toggle (interruptible bus) led status s in
        let f = (interrupt_twice bus s).firmware in
        (bit_at i (pins.byte place s'.firmware.device)
          ≡ bit_at i (pins.byte place (led_toggle bus led status f.device)))
        × (s'.firmware ≡ record f { device = s'.firmware.device })
  unfolding led_toggle merge_byte
  led_toggle-serial led_0 status place i s out quiet lt = absurd (cc)
  led_toggle-serial led_1 status place i s out quiet lt = absurd (cc)
  led_toggle-serial led_2 status place i s out quiet lt = absurd (cc)
  led_toggle-serial led_3 status place i s out quiet lt = absurd (cc)
  led_toggle-serial led_block_0 status place i s out quiet lt =
      merge_serial 3 0xc0 status place i s refl (omega arith) quiet lt (λ e. cc)
  led_toggle-serial led_block_1 status place i s out quiet lt =
      merge_serial 0 0x0f status place i s refl (omega arith) quiet lt (low_mask i)
  led_toggle-serial led_uf_1 status place i s out quiet lt =
      merge_serial 3 0x40 status place i s refl (omega arith) quiet lt (λ e. cc)
  led_toggle-serial led_uf_2 status place i s out quiet lt =
      merge_serial 3 0x80 status place i s refl (omega arith) quiet lt (λ e. cc)
