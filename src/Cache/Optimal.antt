-- ===== src/Cache/Optimal.antt =====
-- userspace/src/cache_simulator.c: `find_optimal_victim`. The trace is the part behind the current
-- access, so that index 0 is `current_idx + 1`.
pub mod Victim
use rpi_cpu_emulator_linux_d.Base.{ℕ, zero, suc, ◌+◌, ◌/◌, ◌^◌, Option, none, some, List, [], ◌∷◌}
use rpi_cpu_emulator_linux_d.Base.{ltb, ◌==◌, if◌then◌else◌}
use rpi_cpu_emulator_linux_d.Uapi.{MemAccess}
use rpi_cpu_emulator_linux_d.Cache.Geometry.{line_tag}
use rpi_cpu_emulator_linux_d.Cache.Level.{CacheLine, CacheSet}

-- The search for the next use of a tag, from index `j` of the trace on; `none` is SIZE_MAX.
unfoldable pub next_use : (ℕ → ℕ) → ℕ → List MemAccess → ℕ → Option ℕ
next_use tag_of tag [] j = none
next_use tag_of tag (t ∷ ts) j =
    if tag_of t.addr == tag then some j else next_use tag_of tag ts (suc j)

-- The loop over the lines, from line `i` on; `first` is `current_idx + 1`.
unfoldable pub optimal_loop : (ℕ → ℕ) → List MemAccess → ℕ → CacheSet → ℕ → ℕ → ℕ → ℕ
optimal_loop tag_of future first [] i furthest victim_idx = victim_idx
optimal_loop tag_of future first (l ∷ ls) i furthest victim_idx =
    elim (next_use tag_of l.tag future first) [
      | none ↦ i
      | some use_at ↦
          optimal_loop tag_of future first ls (suc i)
            (if ltb furthest use_at then use_at else furthest)
            (if ltb furthest use_at then i else victim_idx)
    ]

unfoldable pub find_optimal_victim : ℕ → ℕ → CacheSet → List MemAccess → ℕ → ℕ
unfolding optimal_loop next_use
find_optimal_victim line_size num_sets set future current_idx =
    optimal_loop (line_tag line_size num_sets) future (suc current_idx) set 0 0 0
