-- ===== src/Base/Bits.antt =====
-- Laws of `&` and `|` at variables: the digit recursion, the width of a result, low masks and
-- single bits.
use Prim.Native.Nat.{ℕ, zero, suc, ◌+◌, ◌-◌, ◌*◌, ◌/◌, ◌%◌, ◌^◌, ◌≤◌, ◌<◌}
use Prim.Native.Nat.{min, max, bit_and, bit_or, digits, bitwise, bit_and-bitwise, bit_or-bitwise}
use mathlib.Core.Path.{◌≡◌, refl, ap, ◌∙◌}
use native.Mathlib.Nat.{le_refl, pow-suc, one-le-pow}
use native.Mathlib.Omega.{arith}

-- One more unit of fuel, and then any number, changes nothing once there is enough.
module _ (rest : ℕ → ℕ) (op : ℕ → ℕ → ℕ) where
  one_more : (n a b : ℕ) → a ≤ n → digits rest op (suc n) a b ≡ digits rest op n a b
  one_more zero zero b h = refl
  one_more zero (suc a) b h = absurd (omega arith)
  one_more (suc n) zero b h = refl
  one_more (suc n) (suc a) b h =
      ap (λ (w : ℕ). w * 2 + op (suc a % 2) (b % 2)) (one_more n (suc a / 2) (b / 2) (omega arith))

  many_more : (extra n a b : ℕ) → a ≤ n → digits rest op (n + extra) a b ≡ digits rest op n a b
  many_more zero n a b h = ap (λ (t : ℕ). digits rest op t a b) {x = n + 0} {y = n} (omega arith)
  many_more (suc extra) n a b h =
      ap (λ (t : ℕ). digits rest op t a b) {x = n + suc extra} {y = suc (n + extra)} (omega arith)
      ∙ one_more (n + extra) a b (omega arith)
      ∙ many_more extra n a b h

  -- The digits of a positive first operand: the lowest one, and those of the halves.
  lowest_digit :
      (a b : ℕ)
      → bitwise rest op (suc a) b ≡ bitwise rest op (suc a / 2) (b / 2) * 2 + op (suc a % 2) (b % 2)
  lowest_digit a b =
      let half : ℕ = suc a / 2 in
      ap (λ (w : ℕ). w * 2 + op (suc a % 2) (b % 2))
        (ap (λ (t : ℕ). digits rest op t half (b / 2)) {x = a} {y = half + (a - half)} (omega arith)
          ∙ many_more (a - half) half half (b / 2) (le_refl half))

bit_or-positive :
    (n b : ℕ) → bit_or (suc n) b ≡ bit_or (suc n / 2) (b / 2) * 2 + max (suc n % 2) (b % 2)
bit_or-positive n b =
    rw (bit_or-bitwise (suc n) b, bit_or-bitwise (suc n / 2) (b / 2))
      (lowest_digit (λ w. w) max n b)

bit_and-positive :
    (n b : ℕ) → bit_and (suc n) b ≡ bit_and (suc n / 2) (b / 2) * 2 + min (suc n % 2) (b % 2)
bit_and-positive n b =
    rw (bit_and-bitwise (suc n) b, bit_and-bitwise (suc n / 2) (b / 2))
      (lowest_digit (λ _. 0) min n b)

-- The recursion on the lowest digit of both operands.
pub bit_and_step : (x y : ℕ) → bit_and x y ≡ bit_and (x / 2) (y / 2) * 2 + min (x % 2) (y % 2)
bit_and_step (suc n) y = bit_and-positive n y
bit_and_step zero y = omega (arith, bit_and-bitwise 0 y, bit_and-bitwise 0 (y / 2))

pub bit_or_step : (x y : ℕ) → bit_or x y ≡ bit_or (x / 2) (y / 2) * 2 + max (x % 2) (y % 2)
bit_or_step (suc n) y = bit_or-positive n y
bit_or_step zero y = omega (arith, bit_or-bitwise 0 y, bit_or-bitwise 0 (y / 2))

-- A disjunction fits the width that its operands fit.
pub bit_or-lt_pow : (k a b : ℕ) → a < 2 ^ k → b < 2 ^ k → bit_or a b < 2 ^ k
bit_or-lt_pow zero zero zero p q = omega arith
bit_or-lt_pow zero zero (suc b) p q = absurd (omega arith)
bit_or-lt_pow zero (suc a) b p q = absurd (omega arith)
bit_or-lt_pow (suc k) a b p q =
    let e : 2 ^ suc k ≡ 2 ^ k * 2 = pow-suc 2 k in
    omega (arith, bit_or_step a b, e, bit_or-lt_pow k (a / 2) (b / 2) (omega arith) (omega arith))

bit_and-le_fuel : (n a b : ℕ) → a ≤ n → bit_and a b ≤ a
bit_and-le_fuel n zero b h = omega (arith, bit_and-bitwise 0 b)
bit_and-le_fuel zero (suc a) b h = absurd (omega arith)
bit_and-le_fuel (suc n) (suc a) b h =
    omega (arith, bit_and_step (suc a) b, bit_and-le_fuel n (suc a / 2) (b / 2) (omega arith))

-- A conjunction is at most its first operand.
pub bit_and-le : (a b : ℕ) → bit_and a b ≤ a
bit_and-le a b = bit_and-le_fuel a a b (le_refl a)

-- Both operations with 0 on the right.
zero_on_right : (bound a : ℕ) → a < bound → (bit_and a 0 ≡ 0) × (bit_or a 0 ≡ a)
zero_on_right zero a lt = absurd (omega arith)
zero_on_right (suc bound) zero lt = (refl, refl)
zero_on_right (suc bound) (suc a) lt =
    let half = zero_on_right bound (suc a / 2) (omega arith) in
    (omega (arith, half.0, bit_and_step (suc a) 0), omega (arith, half.1, bit_or_step (suc a) 0))

pub bit_and-zero : (a : ℕ) → bit_and a 0 ≡ 0
bit_and-zero a = (zero_on_right (suc a) a (omega arith)).0

pub bit_or-zero : (a : ℕ) → bit_or a 0 ≡ a
bit_or-zero a = (zero_on_right (suc a) a (omega arith)).1

bit_and-le_right_fuel : (n a b : ℕ) → b ≤ n → bit_and a b ≤ b
bit_and-le_right_fuel n a zero h = omega (arith, bit_and-zero a)
bit_and-le_right_fuel zero a (suc b) h = absurd (omega arith)
bit_and-le_right_fuel (suc n) a (suc b) h =
    omega (arith, bit_and_step a (suc b), bit_and-le_right_fuel n (a / 2) (suc b / 2) (omega arith))

-- A conjunction is at most its second operand.
pub bit_and-le_right : (a b : ℕ) → bit_and a b ≤ b
bit_and-le_right a b = bit_and-le_right_fuel b a b (le_refl b)

-- A mask of `k` ones keeps the low field of a packed value.
bit_and-packed : (k q r : ℕ) → r < 2 ^ k → bit_and (q * 2 ^ k + r) (2 ^ k - 1) ≡ r
bit_and-packed zero q r fits = rw bit_and-zero (omega arith)
bit_and-packed (suc k) q r fits = ground (
  arith,
  pow-suc 2 k,
  one-le-pow k 2,
  ap (λ (t : ℕ). q * t) (pow-suc 2 k),
  bit_and_step (q * 2 ^ suc k + r) (2 ^ suc k - 1),
  bit_and-packed k q (r / 2),
)

pub bit_and-low_mask : (k a : ℕ) → bit_and a (2 ^ k - 1) ≡ a % 2 ^ k
bit_and-low_mask k a = ground (arith, one-le-pow k 2, bit_and-packed k (a / 2 ^ k) (a % 2 ^ k))

zero-bit_or : (b : ℕ) → bit_or 0 b ≡ b
zero-bit_or b = simp bit_or-bitwise refl

-- `r | (q << k)` is a sum when `r` fits `k` bits.
pub bit_or-packed : (k q r : ℕ) → r < 2 ^ k → bit_or r (q * 2 ^ k) ≡ r + q * 2 ^ k
bit_or-packed zero q r fits = ground (arith, zero-bit_or q)
bit_or-packed (suc k) q r fits = ground (
  arith,
  pow-suc 2 k,
  ap (λ (t : ℕ). q * t) (pow-suc 2 k),
  bit_or_step r (q * 2 ^ suc k),
  bit_or-packed k q (r / 2),
)
