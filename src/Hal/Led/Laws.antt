-- ===== src/Hal/Led/Laws.antt =====
-- The LEDs on a data register whose four bytes are storage (PG144).
use trace_fs.Base.{
  ℕ, zero, suc, ◌-◌, ◌<◌, ◌≡◌, ◌≢◌, refl, arith, bit_at, bit_or, bit_and, bit_not, u8, Bool, false,
  ◌&&◌, ◌==◌, leb, ltb, if◌then◌else◌,
}
use trace_fs.Bits.{bit_at-bit_and, bit_at-bit_or}
use trace_fs.Hal.Bus.{Bus, gpio_data}
use trace_fs.Hal.Led.{
  Led, led_0, led_1, led_2, led_3, led_block_0, led_block_1, led_uf_1, led_uf_2, led_masks, merge,
  merge_byte, led_toggle,
}

-- The output pins of an LED, as byte of the data register and bit of the byte: `PMOD_1` is byte 0,
-- and the LEDs UF 1 and UF 2 are bits 30 and 31.
abbrev pub drives : Led → ℕ → ℕ → Bool
drives led_0 place i = place == 0 && i == 0
drives led_1 place i = place == 0 && i == 1
drives led_2 place i = place == 0 && i == 2
drives led_3 place i = place == 0 && i == 3
drives led_block_0 place i = place == 3 && leb 6 i
drives led_block_1 place i = place == 0 && ltb i 4
drives led_uf_1 place i = place == 3 && i == 6
drives led_uf_2 place i = place == 3 && i == 7

-- The bytes of the data register hold what was written to them.
pub record IsGpioData (bus : Bus) : Type 0 where
  pub byte : ℕ → bus.Device → ℕ
  pub load_byte_lem : (p : ℕ) (d : bus.Device) → bus.load_byte gpio_data p d ≡ (byte p d, d)
  pub store_byte_lem :
      (p q v : ℕ) (d : bus.Device)
      → byte p (bus.store_byte gpio_data q v d) ≡ (if p == q then v else byte p d)

-- A statement about each bit of a byte.
pub each_bit :
    (P : ℕ → Type 0) → P 0 × P 1 × P 2 × P 3 × P 4 × P 5 × P 6 × P 7 → (i : ℕ) → i < 8 → P i
each_bit P h zero lt = h.0
each_bit P h (suc zero) lt = h.1
each_bit P h (suc (suc zero)) lt = h.2
each_bit P h (suc (suc (suc zero))) lt = h.3
each_bit P h (suc (suc (suc (suc zero)))) lt = h.4
each_bit P h (suc (suc (suc (suc (suc zero))))) lt = h.5
each_bit P h (suc (suc (suc (suc (suc (suc zero)))))) lt = h.6
each_bit P h (suc (suc (suc (suc (suc (suc (suc zero))))))) lt = h.7
each_bit P h (suc (suc (suc (suc (suc (suc (suc (suc i)))))))) lt = absurd (omega arith)

bit_at-u8 : (x i : ℕ) → i < 8 → bit_at i (u8 x) ≡ bit_at i x
bit_at-u8 x = each_bit (λ i. bit_at i (u8 x) ≡ bit_at i x) (omega arith)

bit_at-bit_not : (m : ℕ) → m < 256 → (i : ℕ) → i < 8 → bit_at i (bit_not m) ≡ 1 - bit_at i m
bit_at-bit_not m h = each_bit (λ i. bit_at i (bit_not m) ≡ 1 - bit_at i m) (omega arith)

-- Merging takes the masked bits from the status and keeps the others.
pub merge-bits :
    (old mask status i : ℕ)
    → mask < 256
    → i < 8
    → bit_at i (merge old mask status)
      ≡ (if bit_at i mask == 1 then bit_at i status else bit_at i old)
merge-bits old mask status i hm hi = ground (
  arith,
  bit_at-u8 (bit_or (bit_and old (bit_not mask)) (bit_and status mask)) i hi,
  bit_at-bit_or i (bit_and old (bit_not mask)) (bit_and status mask),
  bit_at-bit_and i old (bit_not mask),
  bit_at-bit_and i status mask,
  bit_at-bit_not mask hm i hi,
)

masks-lt : (led : Led) → ((led_masks led).0 < 256) × ((led_masks led).1 < 256)
masks-lt led = ground arith

-- The masks of the `switch` are the pins of the LED.
abbrev Agrees : Led → ℕ → Type 0
Agrees led i =
    ((bit_at i (led_masks led).0 == 1) ≡ drives led 3 i)
    × ((bit_at i (led_masks led).1 == 1) ≡ drives led 0 i)

masks-drive : (led : Led) (i : ℕ) → i < 8 → Agrees led i
masks-drive led_0 = each_bit (Agrees led_0) (
  (refl, refl),
  (refl, refl),
  (refl, refl),
  (refl, refl),
  (refl, refl),
  (refl, refl),
  (refl, refl),
  (refl, refl),
)
masks-drive led_1 = each_bit (Agrees led_1) (
  (refl, refl),
  (refl, refl),
  (refl, refl),
  (refl, refl),
  (refl, refl),
  (refl, refl),
  (refl, refl),
  (refl, refl),
)
masks-drive led_2 = each_bit (Agrees led_2) (
  (refl, refl),
  (refl, refl),
  (refl, refl),
  (refl, refl),
  (refl, refl),
  (refl, refl),
  (refl, refl),
  (refl, refl),
)
masks-drive led_3 = each_bit (Agrees led_3) (
  (refl, refl),
  (refl, refl),
  (refl, refl),
  (refl, refl),
  (refl, refl),
  (refl, refl),
  (refl, refl),
  (refl, refl),
)
masks-drive led_block_0 = each_bit (Agrees led_block_0) (
  (refl, refl),
  (refl, refl),
  (refl, refl),
  (refl, refl),
  (refl, refl),
  (refl, refl),
  (refl, refl),
  (refl, refl),
)
masks-drive led_block_1 = each_bit (Agrees led_block_1) (
  (refl, refl),
  (refl, refl),
  (refl, refl),
  (refl, refl),
  (refl, refl),
  (refl, refl),
  (refl, refl),
  (refl, refl),
)
masks-drive led_uf_1 = each_bit (Agrees led_uf_1) (
  (refl, refl),
  (refl, refl),
  (refl, refl),
  (refl, refl),
  (refl, refl),
  (refl, refl),
  (refl, refl),
  (refl, refl),
)
masks-drive led_uf_2 = each_bit (Agrees led_uf_2) (
  (refl, refl),
  (refl, refl),
  (refl, refl),
  (refl, refl),
  (refl, refl),
  (refl, refl),
  (refl, refl),
  (refl, refl),
)

-- The other two bytes drive no LED.
drives-nothing : (led : Led) (place i : ℕ) → place ≢ 0 → place ≢ 3 → drives led place i ≡ false
drives-nothing led place i h0 h3 = ground arith

by_place :
    (led : Led) (place i a b : ℕ)
    → (if place == 0 && drives led 0 i then a else (if place == 3 && drives led 3 i then a else b))
      ≡ (if drives led place i then a else b)
by_place led zero i a b = ground arith
by_place led (suc zero) i a b = ground (arith, drives-nothing led 1 i)
by_place led (suc (suc zero)) i a b = ground (arith, drives-nothing led 2 i)
by_place led (suc (suc (suc zero))) i a b = ground arith
by_place led (suc (suc (suc (suc p)))) i a b =
    ground (arith, drives-nothing led (suc (suc (suc (suc p)))) i)

bit_at-zero : (i : ℕ) → bit_at i 0 ≡ 0
bit_at-zero i = omega arith

module _ (bus : Bus) (laws : IsGpioData bus) where
  open laws use {byte, load_byte_lem, store_byte_lem}

  pub merge_byte-bits :
      (p place mask status i : ℕ) (d : bus.Device)
      → mask < 256
      → i < 8
      → bit_at i (byte p (merge_byte bus place mask status d))
        ≡ (if p == place && bit_at i mask == 1 then bit_at i status else bit_at i (byte p d))
  unfolding merge_byte
  merge_byte-bits p place mask status i d hm hi = ground (
    arith,
    load_byte_lem place d,
    store_byte_lem p place (merge (byte place d) mask status) d,
    merge-bits (byte place d) mask status i hm hi,
    bit_at-zero i,
  )

  -- For every LED, status byte, byte of the data register and bit of it: the bits that drive the
  -- LED are taken from the status, and all others are kept.
  pub led_toggle-bits :
      (led : Led) (status place i : ℕ) (d : bus.Device)
      → i < 8
      → bit_at i (byte place (led_toggle bus led status d))
        ≡ (if drives led place i then bit_at i status else bit_at i (byte place d))
  unfolding led_toggle
  led_toggle-bits led status place i d hi =
      let m0 = (led_masks led).0 in
      let m1 = (led_masks led).1 in
      rw
        (
          merge_byte-bits place 0 m1 status i (merge_byte bus 3 m0 status d) (masks-lt led).1 hi,
          merge_byte-bits place 3 m0 status i d (masks-lt led).0 hi,
          (masks-drive led i hi).0,
          (masks-drive led i hi).1,
        )
        (by_place led place i (bit_at i status) (bit_at i (byte place d)))
