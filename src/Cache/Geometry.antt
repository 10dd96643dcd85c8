-- ===== src/Cache/Geometry.antt =====
-- userspace/src/cache_simulator.c: `fast_log2`, `is_power_of_two`, and the split of an address into
-- tag and index.
pub mod Address
use rpi_cpu_emulator_linux_d.Base.{
  ℕ, zero, suc, ◌+◌, ◌-◌, ◌*◌, ◌/◌, ◌%◌, ◌^◌, ◌≤◌, ◌<◌, ◌≡◌, ◌≢◌, ◌⊎◌, ◌↔◌, inl, inr, refl, sym, ap,
  ap₂, ◌∙◌, arith,
}
use rpi_cpu_emulator_linux_d.Base.{
  Option, none, some, Bool, true, false, not, ◌&&◌, ◌==◌, if◌then◌else◌, bit_and, bit_and_step,
  bit_and-low_mask, Bool-cases,
}
use native.Mathlib.Nat.{le_refl, pow-suc, one-le-pow, pow-le-pow_right, mod_self}
use native.Mathlib.Decide.{dec_lt}

-- The loop `while (n >>= 1) ++log;`, for as many evaluations of its test as `fuel` says; `none` is a
-- loop that goes on. A `uint32_t` is 0 after 32 shifts.
unfoldable pub log2_loop : ℕ → ℕ → ℕ → Option ℕ
log2_loop zero n log = none
log2_loop (suc fuel) n log =
    let rest = log2_loop fuel (n / 2) (log + 1) in if n / 2 == 0 then some log else rest

-- The value for a loop that goes on stands for nothing: it is not reached for a `uint32_t`.
unfoldable pub fast_log2 : ℕ → ℕ
fast_log2 n = elim (log2_loop 32 n 0) [ none ↦ 0 | some log ↦ log ]

unfoldable pub is_power_of_two : ℕ → Bool
is_power_of_two x = not (x == 0) && (bit_and x (x - 1) == 0)

-- `(address >> offset_bits) & (num_sets - 1)`
unfoldable pub set_index : ℕ → ℕ → ℕ → ℕ
set_index line_size num_sets address = bit_and (address / 2 ^ fast_log2 line_size) (num_sets - 1)

-- `address >> (offset_bits + index_bits)`
unfoldable pub line_tag : ℕ → ℕ → ℕ → ℕ
line_tag line_size num_sets address = address / 2 ^ (fast_log2 line_size + fast_log2 num_sets)

-- The loop ends by its test, with the exponent of the highest bit.
log2_loop_lem :
    (fuel n log k : ℕ)
    → 2 ^ k ≤ n
    → n < 2 ^ suc k
    → k < fuel
    → log2_loop fuel n log ≡ some (log + k)
unfolding log2_loop
log2_loop_lem zero n log k lo hi lt = absurd (omega arith)
log2_loop_lem (suc fuel) n log zero lo hi lt = ground arith
log2_loop_lem (suc fuel) n log (suc k) lo hi lt =
    ground (
      arith,
      pow-suc 2 k,
      pow-suc 2 (suc k),
      one-le-pow k 2,
      log2_loop_lem fuel (n / 2) (log + 1) k,
    )

-- For every nonzero `uint32_t` with highest bit `k` (the greatest power of two up to it is 2 to the
-- `k`), the loop ends by its test within k + 1 evaluations of it, and within 32, and `fast_log2` is `k`.
pub fast_log2_lem :
    (n k : ℕ)
    → 2 ^ k ≤ n
    → n < 2 ^ suc k
    → n < 2 ^ 32
    → (log2_loop (suc k) n 0 ≡ some k) × (log2_loop 32 n 0 ≡ some k) × (fast_log2 n ≡ k)
unfolding fast_log2
fast_log2_lem n k lo hi fits =
    let sum : 0 + k ≡ k = omega arith in
    let found : log2_loop 32 n 0 ≡ some k = log2_loop_lem 32 n 0 k lo hi below ∙ ap some sum in
    (
      log2_loop_lem (suc k) n 0 k lo hi (omega arith) ∙ ap some sum,
      found,
      ap (λ (o : Option ℕ). elim o [ none ↦ 0 | some log ↦ log ]) found,
    )
  where
    below : k < 32
    below = elim (dec_lt k 32) [
      | yes lt ↦ lt
      | no ge ↦
          absurd
            (omega (arith, pow-le-pow_right {n = 2} (omega arith) {i = 32} {j = k} (omega arith)))
    ]

bit_and_self : (n a : ℕ) → a ≤ n → bit_and a a ≡ a
bit_and_self n zero h = refl
bit_and_self zero (suc a) h = absurd (omega arith)
bit_and_self (suc n) (suc a) h =
    omega (arith, bit_and_step (suc a) (suc a), bit_and_self n (suc a / 2) (omega arith))

-- Halving keeps the property that `is_power_of_two` tests.
power_half_even : (y : ℕ) → 0 < y → bit_and (2 * y) (2 * y - 1) ≡ bit_and y (y - 1) * 2
power_half_even y pos = omega (
  arith,
  bit_and_step (2 * y) (2 * y - 1),
  ap₂ bit_and {x = 2 * y / 2} {y = y} {u = (2 * y - 1) / 2} {v = y - 1} (omega arith) (omega arith),
)

power_half_odd : (y : ℕ) → bit_and (2 * y + 1) (2 * y) ≡ y * 2
power_half_odd y = omega (
  arith,
  bit_and_step (2 * y + 1) (2 * y),
  ap₂ bit_and {x = (2 * y + 1) / 2} {y = y} {u = 2 * y / 2} {v = y} (omega arith) (omega arith),
  bit_and_self y y (le_refl y),
)

power_of_test : (n x : ℕ) → x ≤ n → 0 < x → bit_and x (x - 1) ≡ 0 → (k : ℕ) × (x ≡ 2 ^ k)
power_of_test zero x le pos h = absurd (omega arith)
power_of_test (suc n) x le pos h = elim (Bool-cases (x % 2 == 0)) [
  | inl even ↦
      let double : x ≡ 2 * (x / 2) = ground (arith, even) in
      let half_test : bit_and (x / 2) (x / 2 - 1) ≡ 0 = omega (
        arith,
        power_half_even (x / 2) (omega arith),
        ap₂ bit_and {x = x} {y = 2 * (x / 2)} {u = x - 1} {v = 2 * (x / 2) - 1} double
            (omega arith),
      ) in
      let (k, e) = power_of_test n (x / 2) (omega arith) (omega arith) half_test in
      (suc k, omega (arith, pow-suc 2 k))
  | inr odd ↦
      let double : x ≡ 2 * (x / 2) + 1 = ground (arith, odd) in
      (
        0,
        omega (
          arith,
          power_half_odd (x / 2),
          ap₂ bit_and {x = x} {y = 2 * (x / 2) + 1} {u = x - 1} {v = 2 * (x / 2)} double
              (omega arith),
        ),
      )
]

-- `is_power_of_two` accepts exactly the powers of two.
pub is_power_of_two_iff : (x : ℕ) → (is_power_of_two x ≡ true) ↔ ((k : ℕ) × (x ≡ 2 ^ k))
unfolding is_power_of_two
is_power_of_two_iff x = (
  λ h. power_of_test x x (le_refl x) (ground arith) (ground arith),
  λ (k, e). rw e (ground (arith, bit_and-low_mask k (2 ^ k), mod_self (2 ^ k), one-le-pow k 2)),
)
