-- ===== src/Driver/Flags.antt =====
-- cpu_driver/cpu_emulator_driver.c: the bits of `cpu->fr`, and what `handle_compare` leaves in them.
use rpi_cpu_emulator_linux_d.Base.{ℕ, ◌-◌, ◌*◌, ◌/◌, ◌%◌, ◌^◌, ◌<◌, ◌≡◌, arith, ap, bit_and, bit_or}
use rpi_cpu_emulator_linux_d.Base.{◌+◌, ◌==◌, not32}
use rpi_cpu_emulator_linux_d.Base.{
  bit_and_step, bit_or_step, bit_and-zero, bit_or-zero, bit_and-low_mask,
}
use rpi_cpu_emulator_linux_d.Base.{if◌then◌else◌, ◌==◌}
use rpi_cpu_emulator_linux_d.Driver.Cpu.{handle_compare, is_negative64}
use rpi_cpu_emulator_linux_d.Uapi.Flag.{cf, zf, sf}
use rpi_cpu_emulator_linux_d.Driver.Cpu.{Cpu, set_flag, clear_flag, has_flag}

-- The bits that stand for the three flags.
abbrev pub bit0 : ℕ → ℕ
bit0 x = x % 2

abbrev pub bit6 : ℕ → ℕ
bit6 x = x / 64 % 2

abbrev pub bit7 : ℕ → ℕ
bit7 x = x / 128 % 2

-- Testing, setting and clearing one bit, as arithmetic.
bit_and-cf : (x : ℕ) → bit_and x cf ≡ bit0 x
bit_and-cf x = omega (arith, bit_and_step x 1, bit_and-zero (x / 2))

bit_and-one_at : (x : ℕ) → bit_and x 2 ≡ x / 2 % 2 * 2
bit_and-one_at x = omega (arith, bit_and_step x 2, bit_and-cf (x / 2))

bit_and_eight : (x : ℕ) → bit_and x 8 ≡ x / 8 % 2 * 8
bit_and_eight x =
    omega (arith, bit_and_step x 8, bit_and_step (x / 2) 4, bit_and-one_at (x / 2 / 2))

bit_and-zf : (x : ℕ) → bit_and x zf ≡ bit6 x * 64
bit_and-zf x = omega (
  arith,
  bit_and_step x 64,
  bit_and_step (x / 2) 32,
  bit_and_step (x / 2 / 2) 16,
  bit_and_eight (x / 2 / 2 / 2),
)

bit_and-sf : (x : ℕ) → bit_and x sf ≡ bit7 x * 128
bit_and-sf x = omega (arith, bit_and_step x 128, bit_and-zf (x / 2))

bit_or-cf : (x : ℕ) → bit_or x cf ≡ x + (1 - bit0 x)
bit_or-cf x = omega (arith, bit_or_step x 1, bit_or-zero (x / 2))

bit_or_eight : (x : ℕ) → bit_or x 8 ≡ x + (1 - x / 8 % 2) * 8
bit_or_eight x = omega (
  arith,
  bit_or_step x 8,
  bit_or_step (x / 2) 4,
  bit_or_step (x / 2 / 2) 2,
  bit_or-cf (x / 2 / 2 / 2),
)

bit_or-zf : (x : ℕ) → bit_or x zf ≡ x + (1 - bit6 x) * 64
bit_or-zf x = omega (
  arith,
  bit_or_step x 64,
  bit_or_step (x / 2) 32,
  bit_or_step (x / 2 / 2) 16,
  bit_or_eight (x / 2 / 2 / 2),
)

bit_or-sf : (x : ℕ) → bit_or x sf ≡ x + (1 - bit7 x) * 128
bit_or-sf x = omega (arith, bit_or_step x 128, bit_or-zf (x / 2))

bit_and-not_cf : (x : ℕ) → x < 2 ^ 16 → bit_and x (not32 cf) ≡ x - bit0 x
bit_and-not_cf x h = omega (arith, bit_and_step x (not32 cf), bit_and-low_mask 31 (x / 2))

-- A digit of the mask that is 1 or 0 keeps or drops the digit of `x`.
bit_and-odd : (x m : ℕ) → bit_and x (m * 2 + 1) ≡ bit_and (x / 2) m * 2 + x % 2
bit_and-odd x m = omega (
  arith,
  bit_and_step x (m * 2 + 1),
  ap (bit_and (x / 2)) {x = (m * 2 + 1) / 2} {y = m} (omega arith),
)

bit_and-even : (x m : ℕ) → bit_and x (m * 2) ≡ bit_and (x / 2) m * 2
bit_and-even x m =
    omega
      (arith, bit_and_step x (m * 2), ap (bit_and (x / 2)) {x = m * 2 / 2} {y = m} (omega arith))

drop_bit_three : (x : ℕ) → x < 2 ^ 13 → bit_and x 0x1FFFFFF7 ≡ x - x / 8 % 2 * 8
drop_bit_three x h = omega (
  arith,
  bit_and-odd x 0xFFFFFFB,
  bit_and-odd (x / 2) 0x7FFFFFD,
  bit_and-odd (x / 2 / 2) 0x3FFFFFE,
  bit_and-even (x / 2 / 2 / 2) 0x1FFFFFF,
  bit_and-low_mask 25 (x / 2 / 2 / 2 / 2),
)

bit_and-not_zf : (x : ℕ) → x < 2 ^ 16 → bit_and x (not32 zf) ≡ x - bit6 x * 64
bit_and-not_zf x h = omega (
  arith,
  bit_and-odd x 0x7FFFFFDF,
  bit_and-odd (x / 2) 0x3FFFFFEF,
  bit_and-odd (x / 2 / 2) 0x1FFFFFF7,
  drop_bit_three (x / 2 / 2 / 2) (omega arith),
)

drop_bit_four : (x : ℕ) → x < 2 ^ 13 → bit_and x 0x1FFFFFEF ≡ x - x / 16 % 2 * 16
drop_bit_four x h = omega (
  arith,
  bit_and-odd x 0xFFFFFF7,
  bit_and-odd (x / 2) 0x7FFFFFB,
  bit_and-odd (x / 2 / 2) 0x3FFFFFD,
  bit_and-odd (x / 2 / 2 / 2) 0x1FFFFFE,
  bit_and-even (x / 2 / 2 / 2 / 2) 0xFFFFFF,
  bit_and-low_mask 24 (x / 2 / 2 / 2 / 2 / 2),
)

bit_and-not_sf : (x : ℕ) → x < 2 ^ 16 → bit_and x (not32 sf) ≡ x - bit7 x * 128
bit_and-not_sf x h = omega (
  arith,
  bit_and-odd x 0x7FFFFFBF,
  bit_and-odd (x / 2) 0x3FFFFFDF,
  bit_and-odd (x / 2 / 2) 0x1FFFFFEF,
  drop_bit_four (x / 2 / 2 / 2) (omega arith),
)

-- The register after one flag is set or cleared.
module _ (c : Cpu) (fits : c.fr < 2 ^ 16) where
  fr-set_cf : (set_flag cf c).fr ≡ c.fr + (1 - bit0 c.fr)
  unfolding set_flag
  fr-set_cf = omega (arith, bit_or-cf c.fr)

  fr-set_zf : (set_flag zf c).fr ≡ c.fr + (1 - bit6 c.fr) * 64
  unfolding set_flag
  fr-set_zf = omega (arith, bit_or-zf c.fr)

  fr-set_sf : (set_flag sf c).fr ≡ c.fr + (1 - bit7 c.fr) * 128
  unfolding set_flag
  fr-set_sf = omega (arith, bit_or-sf c.fr)

  fr-clear_cf : (clear_flag cf c).fr ≡ c.fr - bit0 c.fr
  unfolding clear_flag
  fr-clear_cf = omega (arith, bit_and-not_cf c.fr fits)

  fr-clear_zf : (clear_flag zf c).fr ≡ c.fr - bit6 c.fr * 64
  unfolding clear_flag
  fr-clear_zf = omega (arith, bit_and-not_zf c.fr fits)

  fr-clear_sf : (clear_flag sf c).fr ≡ c.fr - bit7 c.fr * 128
  unfolding clear_flag
  fr-clear_sf = omega (arith, bit_and-not_sf c.fr fits)

-- A flag is tested through its bit.
has_flag-cf : (c : Cpu) → has_flag cf c ≡ (bit0 c.fr == 1)
unfolding has_flag
has_flag-cf c = ground (arith, bit_and-cf c.fr)

has_flag-zf : (c : Cpu) → has_flag zf c ≡ (bit6 c.fr == 1)
unfolding has_flag
has_flag-zf c = ground (arith, bit_and-zf c.fr)

has_flag-sf : (c : Cpu) → has_flag sf c ≡ (bit7 c.fr == 1)
unfolding has_flag
has_flag-sf c = ground (arith, bit_and-sf c.fr)

-- Each of the four ways through `handle_compare`, as arithmetic on the register.
abbrev cleared : ℕ → ℕ
cleared x = x - bit6 x * 64 - bit7 x * 128 - bit0 x

module _ (c : Cpu) (fits : c.fr < 2 ^ 16) where
  fr-set_all :
      (d : Cpu) {x : ℕ}
      → x < 2 ^ 16
      → d.fr ≡ x
      → (set_flag cf (set_flag sf d)).fr ≡ x + (1 - bit7 x) * 128 + (1 - bit0 x)
  fr-set_all d h e = omega (
    arith,
    fr-set_sf d (omega arith),
    fr-set_cf (set_flag sf d) (omega (arith, fr-set_sf d (omega arith))),
  )

  fr-clear_all :
      (d : Cpu) {x : ℕ}
      → x < 2 ^ 16
      → d.fr ≡ x
      → (clear_flag cf (clear_flag sf d)).fr ≡ x - bit7 x * 128 - bit0 x
  fr-clear_all d h e = omega (
    arith,
    fr-clear_sf d (omega arith),
    fr-clear_cf (clear_flag sf d) (omega (arith, fr-clear_sf d (omega arith))),
  )

  pub fr-handle_compare :
      (result : ℕ)
      → (handle_compare c result).fr
        ≡ cleared c.fr + (if result == 0 then 64 else 0) + (if is_negative64 result then 129 else 0)
  unfolding handle_compare
  fr-handle_compare result = ground (
    arith,
    fr-set_zf c fits,
    fr-clear_zf c fits,
    fr-set_all (set_flag zf c) {x = c.fr + (1 - bit6 c.fr) * 64},
    fr-set_all (clear_flag zf c) {x = c.fr - bit6 c.fr * 64},
    fr-clear_all (set_flag zf c) {x = c.fr + (1 - bit6 c.fr) * 64},
    fr-clear_all (clear_flag zf c) {x = c.fr - bit6 c.fr * 64},
  )

-- For a flags register of 16 bits, `handle_compare` sets the zero flag exactly for the result 0, and
-- the sign and the carry flag exactly for a negative result; bits 1 to 5 and the bits from 8 on stay.
pub handle_compare_bits :
    (c : Cpu) (result : ℕ)
    → c.fr < 2 ^ 16
    → let d = handle_compare c result in
      (has_flag zf d ≡ (result == 0))
      × (has_flag sf d ≡ is_negative64 result)
      × (has_flag cf d ≡ is_negative64 result)
      × (d.fr / 256 ≡ c.fr / 256)
      × (d.fr / 2 % 32 ≡ c.fr / 2 % 32)
handle_compare_bits c result fits =
    let e = fr-handle_compare c fits result in
    let d : Cpu = handle_compare c result in
    (
      ground (arith, e, has_flag-zf d),
      ground (arith, e, has_flag-sf d),
      ground (arith, e, has_flag-cf d),
      ground (arith, e),
      ground (arith, e),
    )
