-- ===== src/Hal/Led.antt =====
-- firmware/emsa5/hal/led.c and led.h.
pub mod Laws
use trace_fs.Base.{ℕ, ◌*◌, ◌^◌, ◌%◌, bit_and, bit_or, bit_not, u8, ◌<<<◌, Bool, ◌==◌, if◌then◌else◌}
use trace_fs.Hal.Bus.{Bus, gpio_data}

pub data Led : Type 0 where
  led_0 led_1 led_2 led_3 led_block_0 led_block_1 led_uf_1 led_uf_2 : Led

abbrev pub led_code : Led → ℕ
led_code led_0 = 0
led_code led_1 = 1
led_code led_2 = 2
led_code led_3 = 3
led_code led_block_0 = 4
led_code led_block_1 = 5
led_code led_uf_1 = 6
led_code led_uf_2 = 7

-- `led_status_t`; `blinkenlights` passes other bytes, so a status is a number.
abbrev pub on : ℕ
on = 0xff

abbrev pub off : ℕ
off = 0x00

-- The two masks that the `switch` sets, as (mask_0, mask_1).
abbrev pub led_masks : Led → ℕ × ℕ
led_masks led_0 = (0, u8 (1 <<< led_code led_0))
led_masks led_1 = (0, u8 (1 <<< led_code led_1))
led_masks led_2 = (0, u8 (1 <<< led_code led_2))
led_masks led_3 = (0, u8 (1 <<< led_code led_3))
led_masks led_block_0 = (0xc0, 0)
led_masks led_block_1 = (0, 0x0f)
led_masks led_uf_1 = (u8 (1 <<< led_code led_uf_1), 0)
led_masks led_uf_2 = (u8 (1 <<< led_code led_uf_2), 0)

-- `(*gpio_ptr & ~mask) | (status & mask)`, stored into a byte.
abbrev pub merge : ℕ → ℕ → ℕ → ℕ
merge old mask status = u8 (bit_or (bit_and old (bit_not mask)) (bit_and status mask))

module _ (bus : Bus) where
  open bus use {Device, load_byte, store_byte}

  -- A read and a write of the byte at a place of the GPIO data register, if the mask is not 0.
  unfoldable pub merge_byte : ℕ → ℕ → ℕ → Device → Device
  merge_byte place mask status d =
      let (old, d') = load_byte gpio_data place d in
      if mask == 0 then d else store_byte gpio_data place (merge old mask status) d'

  unfoldable pub led_toggle : Led → ℕ → Device → Device
  unfolding merge_byte
  led_toggle led status d =
      let (mask_0, mask_1) = led_masks led in
      let d = merge_byte 3 mask_0 status d in merge_byte 0 mask_1 status d

  unfoldable pub led_init : Device → Device
  unfolding led_toggle
  led_init d = let d = led_toggle led_block_0 off d in led_toggle led_block_1 off d
