-- ===== src/Cache/Level/Valid.antt =====
-- userspace/src/cache_simulator.c: the valid levels of a cache, and `cache_init`.
use rpi_cpu_emulator_linux_d.Base.{
  ℕ, zero, suc, ◌*◌, ◌/◌, ◌≤◌, ◌<◌, ◌≡◌, inl, inr, refl, sym, ap, ◌∙◌, arith,
}
use rpi_cpu_emulator_linux_d.Base.{
  false, some, length, get_elem?, length-replicate, replicate, Bool-cases, ◌==◌, u32,
}
use mathlib.Core.Option.{some-injective}
use native.Mathlib.Nat.{mul-zero}
use mathlib.Core.Path.{subst}
use rpi_cpu_emulator_linux_d.Cache.Geometry.{is_power_of_two}
use rpi_cpu_emulator_linux_d.Cache.Level.{
  CacheLine, CacheSet, CacheLevel, cache_init, empty_line, uint32_max,
}

-- A set of `assoc` lines, whose times are numbers of 32 bits.
pub record HasLines (assoc : ℕ) (s : CacheSet) : Type 0 where
  pub has_lines : length s ≡ assoc
  pub times_fit : (j : ℕ) (l : CacheLine) → get_elem? s j ≡ some l → l.last_used ≤ uint32_max

pub record IsValid (c : CacheLevel) : Type 0 where
  pub some_line : 0 < c.associativity
  pub some_set : 0 < c.num_sets
  pub has_sets : length c.sets ≡ c.num_sets
  pub are_sets : (i : ℕ) (s : CacheSet) → get_elem? c.sets i ≡ some s → HasLines c.associativity s

get_elem?-replicate :
    {A : Type 0} (n i : ℕ) (a b : A) → get_elem? (replicate n a) i ≡ some b → b ≡ a
get_elem?-replicate zero i a b h = absurd (cc)
get_elem?-replicate (suc n) zero a b h = sym (some-injective a b h)
get_elem?-replicate (suc n) (suc i) a b h = get_elem?-replicate n i a b h

fresh_set : (assoc : ℕ) → HasLines assoc (replicate assoc empty_line)
fresh_set assoc = record {
  has_lines = length-replicate assoc empty_line;
  times_fit =
      λ j l g. omega (arith, ap (λ y. y.last_used) (get_elem?-replicate assoc j empty_line l g));
}

positive_factor : (a b : ℕ) → (u32 (a * b) == 0) ≡ false → 0 < b
positive_factor a zero h = absurd (ground (arith, h, mul-zero a))
positive_factor a (suc b) h = omega arith

abbrev pub fresh_level : ℕ → ℕ → ℕ → CacheLevel
fresh_level lvl_size line_size assoc = record {
  size = lvl_size;
  associativity = assoc;
  line_size = line_size;
  num_sets = lvl_size / u32 (line_size * assoc);
  sets = replicate (lvl_size / u32 (line_size * assoc)) (replicate assoc empty_line);
  hits = 0;
  misses = 0;
}

-- A level that `cache_init` sets up is valid, and its counters are 0.
pub cache_init-IsValid :
    (lvl_size line_size assoc : ℕ) (c : CacheLevel)
    → cache_init lvl_size line_size assoc ≡ some c
    → IsValid c × (c.hits ≡ 0) × (c.misses ≡ 0)
unfolding cache_init is_power_of_two
cache_init-IsValid lvl_size line_size assoc c h = elim (Bool-cases (u32 (line_size * assoc) == 0)) [
  | inl bad ↦ absurd (ground (arith, h, bad))
  | inr some_way ↦ elim (Bool-cases (is_power_of_two (lvl_size / u32 (line_size * assoc)))) [
    | inr bad ↦ absurd (ground (arith, h, bad, some_way))
    | inl power ↦
        let c' : CacheLevel = fresh_level lvl_size line_size assoc in
        let built : cache_init lvl_size line_size assoc ≡ some c' =
          rw (cache_init, some_way, power) refl in
        subst (λ c. IsValid c × (c.hits ≡ 0) × (c.misses ≡ 0)) {x = c'} {y = c}
          (some-injective c' c (sym built ∙ h))
          (
            record {
              some_line = positive_factor line_size assoc some_way;
              some_set = ground (arith, power);
              has_sets =
                  length-replicate (lvl_size / u32 (line_size * assoc))
                    (replicate assoc empty_line);
              are_sets = λ i s g.
                  subst (HasLines assoc)
                    (sym (
                      get_elem?-replicate (lvl_size / u32 (line_size * assoc)) i
                        (replicate assoc empty_line) s g))
                    (fresh_set assoc);
            },
            refl,
            refl,
          )
  ]
]
