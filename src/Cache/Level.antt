-- ===== src/Cache/Level.antt =====
-- userspace/src/cache_simulator.c and userspace/inc/cache_simulator.h: the lines, sets and levels of
-- the caches, and the searches through one set.
pub mod Search
pub mod Valid
use rpi_cpu_emulator_linux_d.Base.{
  ℕ, zero, suc, ◌+◌, ◌-◌, ◌*◌, ◌/◌, ◌^◌, Bool, true, false, ◌&&◌, not,
}
use rpi_cpu_emulator_linux_d.Base.{Option, none, some, List, [], ◌∷◌, ltb, ◌==◌, if◌then◌else◌, u32}
use rpi_cpu_emulator_linux_d.Base.{replicate}
use rpi_cpu_emulator_linux_d.Cache.Geometry.{is_power_of_two}

pub data ReplacementPolicy : Type 0 where
  alg_lru alg_optimal : ReplacementPolicy

pub record CacheLine : Type 0 where
  pub tag : ℕ
  pub valid : Bool
  pub last_used : ℕ

-- A `CacheSet` is the list of its lines.
abbrev pub CacheSet : Type 0
CacheSet = List CacheLine

pub record CacheLevel : Type 0 where
  pub size : ℕ
  pub associativity : ℕ
  pub line_size : ℕ
  pub num_sets : ℕ
  pub sets : List CacheSet
  pub hits : ℕ
  pub misses : ℕ

-- What `calloc` gives.
abbrev pub empty_line : CacheLine
empty_line = record { tag = 0; valid = false; last_used = 0 }

-- `none` is the result -1, and a division by zero, which C leaves undefined.
unfoldable pub cache_init : ℕ → ℕ → ℕ → Option CacheLevel
cache_init lvl_size line_size assoc =
    if u32 (line_size * assoc) == 0
    then none
    else let num_sets = lvl_size / u32 (line_size * assoc) in
      if not (is_power_of_two num_sets)
      then none
      else some (record {
        size = lvl_size;
        associativity = assoc;
        line_size = line_size;
        num_sets = num_sets;
        sets = replicate num_sets (replicate assoc empty_line);
        hits = 0;
        misses = 0;
      })

-- The hit check: the first valid line with the tag.
unfoldable pub find_line : ℕ → CacheSet → ℕ → Option ℕ
find_line tag [] i = none
find_line tag (l ∷ ls) i = if l.valid && (l.tag == tag) then some i else find_line tag ls (suc i)

-- The search for an empty slot.
unfoldable pub find_empty : CacheSet → ℕ → Option ℕ
find_empty [] i = none
find_empty (l ∷ ls) i = if not l.valid then some i else find_empty ls (suc i)

abbrev pub uint32_max : ℕ
uint32_max = 2 ^ 32 - 1

-- The loop of the least recently used line, from line `i` on.
unfoldable pub lru_loop : CacheSet → ℕ → ℕ → ℕ → ℕ
lru_loop [] i min_time victim_idx = victim_idx
lru_loop (l ∷ ls) i min_time victim_idx =
    lru_loop ls (suc i) (if ltb l.last_used min_time then l.last_used else min_time)
      (if ltb l.last_used min_time then i else victim_idx)

unfoldable pub lru_victim : CacheSet → ℕ
unfolding lru_loop
lru_victim set = lru_loop set 0 uint32_max 0
