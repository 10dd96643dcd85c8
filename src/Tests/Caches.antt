-- ===== src/Tests/Caches.antt =====
-- userspace/src/cache_simulator.c on concrete inputs.
use rpi_cpu_emulator_linux_d.Base.{
  ℕ, ◌+◌, ◌*◌, ◌/◌, ◌^◌, ◌≤◌, ◌<◌, ◌≡◌, ◌↔◌, refl, ap, arith, zero, suc, true, some, List, [], ◌∷◌,
  get_elem?,
}
use mathlib.Core.Option.{some-injective}
use rpi_cpu_emulator_linux_d.Uapi.{MemAccess}
use rpi_cpu_emulator_linux_d.Cache.Geometry.{
  is_power_of_two, log2_loop, fast_log2, set_index, line_tag, fast_log2_lem, is_power_of_two_iff,
}
use rpi_cpu_emulator_linux_d.Cache.Geometry.Address.{line_of_address}
use rpi_cpu_emulator_linux_d.Cache.Level.{
  alg_lru, CacheLine, CacheSet, CacheLevel, cache_init, empty_line, lru_victim, uint32_max,
}
use rpi_cpu_emulator_linux_d.Cache.Level.Search.{FoundAt, lru_victim-Oldest}
use rpi_cpu_emulator_linux_d.Cache.Optimal.{find_optimal_victim}
use rpi_cpu_emulator_linux_d.Cache.Access.{access_set, cache_access, Levels, sim_loop}
use rpi_cpu_emulator_linux_d.Cache.Access.Set.{IsAccess, access_set-IsAccess}
use rpi_cpu_emulator_linux_d.Cache.Level.Valid.{IsValid, cache_init-IsValid}
use rpi_cpu_emulator_linux_d.Cache.Access.Level.{IsCounted, cache_access-IsCounted}
use rpi_cpu_emulator_linux_d.Cache.Access.Tally.{IsTallied, sim_loop-IsTallied}

is_power_of_two_iff_example : (is_power_of_two 64 ≡ true) ↔ ((k : ℕ) × (64 ≡ 2 ^ k))
is_power_of_two_iff_example = is_power_of_two_iff 64

fast_log2_lem_example :
    (log2_loop 32 0x80000000 0 ≡ some 31)
    × (log2_loop 32 0x80000000 0 ≡ some 31)
    × (fast_log2 0x80000000 ≡ 31)
fast_log2_lem_example = fast_log2_lem 0x80000000 31 (omega arith) (omega arith) (omega arith)

line_of_address_example :
    (set_index (2 ^ 6) (2 ^ 4) 0x1234 < 2 ^ 4)
    × (line_tag (2 ^ 6) (2 ^ 4) 0x1234 * 2 ^ 4 + set_index (2 ^ 6) (2 ^ 4) 0x1234 ≡ 0x1234 / 2 ^ 6)
line_of_address_example = line_of_address 6 4 0x1234 (omega arith) (omega arith)

abbrev line_at : ℕ → ℕ → CacheLine
line_at tag time = record { tag = tag; valid = true; last_used = time }

abbrev full_set : CacheSet
full_set = line_at 3 20 ∷ line_at 5 10 ∷ []

full_set-nonempty : ¬ (full_set ≡ [])
full_set-nonempty e = cc

full_set-fits : (j : ℕ) (l : CacheLine) → get_elem? full_set j ≡ some l → l.last_used ≤ uint32_max
full_set-fits zero l g =
    omega (arith, ap (λ (y : CacheLine). y.last_used) (some-injective (line_at 3 20) l g))
full_set-fits (suc zero) l g =
    omega (arith, ap (λ (y : CacheLine). y.last_used) (some-injective (line_at 5 10) l g))
full_set-fits (suc (suc j)) l g = absurd (cc)

lru_victim-Oldest_example :
    (f : FoundAt full_set 0 (lru_victim full_set)) × ((j : ℕ) (l : CacheLine)
      → get_elem? full_set j ≡ some l
      → f.line.last_used ≤ l.last_used)
lru_victim-Oldest_example = lru_victim-Oldest full_set full_set-nonempty full_set-fits

abbrev accesses : List MemAccess
accesses = record { addr = 0x140; type = 0 } ∷ record { addr = 0x0C0; type = 1 } ∷ []

access_set-IsAccess_example :
    IsAccess 9 21 full_set
      (access_set alg_lru (λ s. find_optimal_victim 64 1 s accesses 0) 9 21 full_set)
access_set-IsAccess_example =
    access_set-IsAccess alg_lru 64 1 accesses 0 9 21 full_set full_set-nonempty full_set-fits

-- A cache of two sets of two lines of 64 bytes.
abbrev pub small_cache : CacheLevel
small_cache = record {
  size = 256;
  associativity = 2;
  line_size = 64;
  num_sets = 2;
  sets = (empty_line ∷ empty_line ∷ []) ∷ (empty_line ∷ empty_line ∷ []) ∷ [];
  hits = 0;
  misses = 0;
}

small_cache-made : cache_init 256 64 2 ≡ some small_cache
unfolding cache_init is_power_of_two
small_cache-made = refl

small_cache-IsValid : IsValid small_cache
small_cache-IsValid = (cache_init-IsValid 256 64 2 small_cache small_cache-made).0

cache_access-IsCounted_example :
    IsCounted 64 2 0x140 small_cache
      (cache_access alg_lru 0 small_cache (record { addr = 0x140; type = 0 }) accesses 0)
cache_access-IsCounted_example =
    cache_access-IsCounted alg_lru 0 small_cache (record { addr = 0x140; type = 0 }) accesses 0
      small_cache-IsValid (omega arith)

abbrev pub small_levels : Levels
small_levels = record { l1 = small_cache; l2 = small_cache; l3 = small_cache; global_timer = 0 }

sim_loop-IsTallied_example :
    (s' : Levels) × (sim_loop alg_lru 2 accesses 0 small_levels ≡ some s')
    × IsTallied 2 2 small_levels s'
sim_loop-IsTallied_example =
    sim_loop-IsTallied alg_lru 2 accesses 0 small_levels
      (record {
        valid1 = small_cache-IsValid;
        valid2 = λ _. small_cache-IsValid;
        valid3 = λ _. small_cache-IsValid;
      })
      (record { room1 = omega arith; room2 = λ _. omega arith; room3 = λ _. omega arith })
