-- ===== src/Cache/Config/Sizes.antt =====
-- userspace/src/cache_simulator.c: sizes that the validators accept make `cache_init` succeed.
use rpi_cpu_emulator_linux_d.Base.{
  ℕ, suc, ◌+◌, ◌-◌, ◌*◌, ◌/◌, ◌^◌, ◌≤◌, ◌<◌, ◌≡◌, inl, inr, refl, sym, ap, ◌∙◌, arith,
}
use rpi_cpu_emulator_linux_d.Base.{true, false, some, Bool-cases, ◌==◌, u32}
use native.Mathlib.Nat.{pow-le-pow_right, one-le-pow, mul-div_cancel, pow-suc, mul_comm}
use native.Mathlib.Decide.{dec_lt}
use rpi_cpu_emulator_linux_d.Cache.Geometry.{is_power_of_two, is_power_of_two_iff}
use rpi_cpu_emulator_linux_d.Cache.Geometry.Address.{pow-add}
use rpi_cpu_emulator_linux_d.Cache.Level.{CacheLevel, cache_init}
use rpi_cpu_emulator_linux_d.Cache.Level.Valid.{IsValid, cache_init-IsValid, fresh_level}
use rpi_cpu_emulator_linux_d.Cache.Config.{is_valid_line_size, is_valid_assoc, is_valid_lvl_size}

-- A valid level with its counters at 0 that holds `lvl_size` bytes, with powers of two for `line_of_address`.
pub record IsBuilt (lvl_size line_size assoc : ℕ) : Type 0 where
  pub level : CacheLevel
  pub built : cache_init lvl_size line_size assoc ≡ some level
  pub is_valid : IsValid level
  pub no_hits : level.hits ≡ 0
  pub no_misses : level.misses ≡ 0
  pub holds_size : level.num_sets * (level.associativity * level.line_size) ≡ lvl_size
  pub line_bits : ℕ
  pub set_bits : ℕ
  pub line_power : (line_bits < 32) × (level.line_size ≡ 2 ^ line_bits)
  pub set_power : (set_bits < 32) × (level.num_sets ≡ 2 ^ set_bits)

line_bits_of :
    (line_size : ℕ) → is_valid_line_size line_size ≡ true → (k : ℕ) × (line_size ≡ 2 ^ k) × (k < 7)
unfolding is_valid_line_size
line_bits_of n h = elim (Bool-cases (n == 16)) [
  | inl a ↦ (4, ground (arith, a), omega arith)
  | inr a ↦ elim (Bool-cases (n == 32)) [
    | inl b ↦ (5, ground (arith, b), omega arith)
    | inr b ↦ (6, ground (arith, a, b, h), omega arith)
  ]
]

exponent-lt : (k j : ℕ) → 2 ^ k < 2 ^ j → k < j
exponent-lt k j h = elim (dec_lt k j) [
  | yes lt ↦ lt
  | no ge ↦
      absurd
        (omega (arith, h, pow-le-pow_right {n = 2} (omega arith) {i = j} {j = k} (omega arith)))
]

exponent-le : (k j : ℕ) → 2 ^ k ≤ 2 ^ j → k ≤ j
exponent-le k j h = elim (dec_lt j k) [
  | no ge ↦ omega arith
  | yes lt ↦ absurd (
      omega (
        arith,
        h,
        pow-suc 2 j,
        one-le-pow j 2 (omega arith),
        pow-le-pow_right {n = 2} (omega arith) {i = suc j} {j = k} lt,
      ))
]

-- The exponents of the three sizes, and of the number of sets.
record Exponents (lvl_size line_size assoc : ℕ) : Type 0 where
  line : ℕ
  way : ℕ
  sets : ℕ
  line_lt : line < 7
  sets_lt : sets < 32
  line_power : line_size ≡ 2 ^ line
  product : line_size * assoc ≡ 2 ^ (line + way)
  product_le : 2 ^ (line + way) ≤ 2 ^ 9
  quotient : lvl_size ≡ 2 ^ sets * 2 ^ (line + way)

Exponents-accepted :
    (lvl_size line_size assoc lvl_max_size : ℕ)
    → is_valid_line_size line_size ≡ true
    → is_valid_assoc assoc ≡ true
    → is_valid_lvl_size assoc line_size lvl_max_size lvl_size ≡ true
    → lvl_max_size ≤ 8192
    → Exponents lvl_size line_size assoc
unfolding is_valid_assoc is_valid_lvl_size
Exponents-accepted s l a max hl ha hs small =
    let (x, ex, x_lt) = line_bits_of l hl in
    let (y, ey) = (is_power_of_two_iff a).0 (ground (arith, ha)) in
    let (z, ez) = (is_power_of_two_iff s).0 (ground (arith, hs)) in
    let a_le : a ≤ 8 = ground (arith, ha) in
    let y_le : y ≤ 3 = exponent-le y 3 (omega (arith, a_le, ey)) in
    let s_le : s ≤ 8192 = ground (arith, hs, small) in
    let z_le : z ≤ 13 = exponent-le z 13 (omega (arith, s_le, ez)) in
    let product : l * a ≡ 2 ^ (x + y) = rw (ex, ey) (sym (pow-add x y)) in
    let bound : 2 ^ (x + y) ≤ 2 ^ 9 =
      pow-le-pow_right {n = 2} (omega arith) {i = x + y} {j = 9} (omega arith) in
    let comm : a * l ≡ l * a = mul_comm a l in
    let fits : 2 ^ (x + y) ≤ 2 ^ z = ground (arith, hs, comm, product, bound, ez) in
    let le : x + y ≤ z = exponent-le (x + y) z fits in
    record {
      line = x;
      way = y;
      sets = z - (x + y);
      line_lt = x_lt;
      sets_lt = omega arith;
      line_power = ex;
      product = product;
      product_le = bound;
      quotient =
          ez
          ∙ ap (λ (t : ℕ). 2 ^ t) {x = z} {y = z - (x + y) + (x + y)} (omega arith)
          ∙ pow-add (z - (x + y)) (x + y);
    }

-- The answers accepted for a level make `cache_init` succeed.
pub IsBuilt-accepted :
    (lvl_size line_size assoc lvl_max_size : ℕ)
    → is_valid_line_size line_size ≡ true
    → is_valid_assoc assoc ≡ true
    → is_valid_lvl_size assoc line_size lvl_max_size lvl_size ≡ true
    → lvl_max_size ≤ 8192
    → IsBuilt lvl_size line_size assoc
unfolding cache_init
IsBuilt-accepted s l a max hl ha hs small =
    let e = Exponents-accepted s l a max hl ha hs small in
    let p : u32 (l * a) ≡ 2 ^ (e.line + e.way) = omega (arith, e.product, e.product_le) in
    let pos : 0 < 2 ^ (e.line + e.way) = one-le-pow (e.line + e.way) 2 (omega arith) in
    let sets : s / u32 (l * a) ≡ 2 ^ e.sets =
      rw (p, e.quotient) (mul-div_cancel (2 ^ e.sets) pos) in
    let nonzero : (u32 (l * a) == 0) ≡ false = ground (arith, p, pos) in
    let power : is_power_of_two (s / u32 (l * a)) ≡ true =
      (is_power_of_two_iff (s / u32 (l * a))).1 (e.sets, sets) in
    let built : cache_init s l a ≡ some (fresh_level s l a) =
      rw (cache_init, nonzero, power) refl in
    record {
      level = fresh_level s l a;
      built = built;
      is_valid = (cache_init-IsValid s l a (fresh_level s l a) built).0;
      no_hits = refl;
      no_misses = refl;
      holds_size = rw (sets, mul_comm a l, e.product) (sym e.quotient);
      line_bits = e.line;
      set_bits = e.sets;
      line_power = (omega (arith, e.line_lt), e.line_power);
      set_power = (e.sets_lt, sets);
    }
