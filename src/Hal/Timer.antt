-- ===== src/Hal/Timer.antt =====
-- firmware/emsa5/hal/timer.c and the union of hal/axi_timer.h.
pub mod Laws
use trace_fs.Base.{ℕ, ◌+◌, ◌-◌, ◌*◌, ◌/◌, ◌%◌, ◌^◌, bit_or, u32, bit_at}
use trace_fs.Hal.Bus.{Bus, tcsr0, tlr0, tcsr1}

pub data TimerId : Type 0 where
  timer_0 timer_1 : TimerId

-- A store to the one-bit field at bit i of `axi_timer_tcsr0_t`, through the union.
unfoldable pub put_bit : ℕ → ℕ → ℕ → ℕ
put_bit i b w = w / 2 ^ (i + 1) * 2 ^ (i + 1) + b % 2 * 2 ^ i + w % 2 ^ i

-- The places of the bit-fields of `axi_timer_tcsr0_t`, in the order of their declaration.
abbrev pub mdt0 : ℕ
mdt0 = 0

abbrev pub udt0 : ℕ
udt0 = 1

abbrev pub gent0 : ℕ
gent0 = 2

abbrev pub capt0 : ℕ
capt0 = 3

abbrev pub arht0 : ℕ
arht0 = 4

abbrev pub load0 : ℕ
load0 = 5

abbrev pub enit0 : ℕ
enit0 = 6

abbrev pub ent0 : ℕ
ent0 = 7

abbrev pub t0int : ℕ
t0int = 8

abbrev pub axi_timer_clock : ℕ
axi_timer_clock = 100000000

-- The eight assignments that start the periodic timer, in order.
unfoldable pub periodic_bits : ℕ → ℕ
unfolding put_bit
periodic_bits v =
    let v = put_bit ent0 1 v in
    let v = put_bit enit0 1 v in
    let v = put_bit load0 0 v in
    let v = put_bit arht0 1 v in
    let v = put_bit capt0 0 v in
    let v = put_bit gent0 0 v in let v = put_bit udt0 0 v in put_bit mdt0 0 v

-- `0xffffffff - (period_in_us * (AXI_TIMER_CLOCK / 1000000))` on uint32_t.
unfoldable pub reload_value : ℕ → ℕ
reload_value period_in_us =
    (0xffff_ffff + 2 ^ 32 - u32 (period_in_us * (axi_timer_clock / 1000000))) % 2 ^ 32

module _ (bus : Bus) where
  open bus use {Device, load, store}

  unfoldable pub timer_init : Device → Device
  timer_init d = let d = store tcsr0 0x100 d in store tcsr1 0x100 d

  unfoldable pub timer_acknowledge_timer : TimerId → Device → Device
  timer_acknowledge_timer timer_0 d = let (v, d) = load tcsr0 d in store tcsr0 (put_bit t0int 1 v) d
  timer_acknowledge_timer timer_1 d = let (v, d) = load tcsr1 d in store tcsr1 (bit_or v 0x100) d

  unfoldable pub timer_configure_periodic_timer : TimerId → ℕ → Device → Device
  timer_configure_periodic_timer timer_0 period_in_us d =
      let d = store tcsr0 0x100 d in
      let d = store tlr0 (reload_value period_in_us) d in
      let d = store tcsr0 0x20 d in let (v, d) = load tcsr0 d in store tcsr0 (periodic_bits v) d
  timer_configure_periodic_timer timer_1 period_in_us d = d

  unfoldable pub timer_disable_timer : TimerId → Device → Device
  timer_disable_timer timer_0 d =
      let (v, d) = load tcsr0 d in store tcsr0 (put_bit enit0 0 (put_bit ent0 0 v)) d
  timer_disable_timer timer_1 d = d
