-- ===== src/Cache/Access.antt =====
-- userspace/src/cache_simulator.c: `cache_access`, and the loop of `run_cache_sim` over the trace.
pub mod Set
pub mod Tally
pub mod Level
use rpi_cpu_emulator_linux_d.Base.{
  ℕ, zero, suc, ◌+◌, Bool, true, false, ◌&&◌, Option, none, some, List, [], ◌∷◌,
}
use rpi_cpu_emulator_linux_d.Base.{ltb, ◌==◌, if◌then◌else◌, u32, u64, get_elem?, set}
use rpi_cpu_emulator_linux_d.Uapi.{MemAccess}
use rpi_cpu_emulator_linux_d.Cache.Geometry.{set_index, line_tag}
use rpi_cpu_emulator_linux_d.Cache.Level.{
  ReplacementPolicy, alg_lru, alg_optimal, CacheLine, CacheSet,
}
use rpi_cpu_emulator_linux_d.Cache.Level.{CacheLevel, find_line, find_empty, lru_victim}
use rpi_cpu_emulator_linux_d.Cache.Optimal.{find_optimal_victim}

-- The effect on one set, and whether it was a hit. `time` is the new `global_timer`.
unfoldable pub touch : ℕ → CacheLine → CacheLine
touch time l = record l { last_used = time }

unfoldable pub set_line : CacheSet → ℕ → (CacheLine → CacheLine) → CacheSet
set_line [] i f = []
set_line (l ∷ ls) zero f = f l ∷ ls
set_line (l ∷ ls) (suc i) f = l ∷ set_line ls i f

unfoldable pub evict : ReplacementPolicy → (CacheSet → ℕ) → ℕ → ℕ → CacheSet → CacheSet
evict policy optimal tag time s =
    let victim_idx : ℕ = elim policy [ alg_lru ↦ lru_victim s | alg_optimal ↦ optimal s ] in
    set_line s victim_idx (λ l. record l { tag = tag; last_used = time })

unfoldable pub access_set : ReplacementPolicy → (CacheSet → ℕ) → ℕ → ℕ → CacheSet → CacheSet × Bool
unfolding touch evict
access_set policy optimal tag time s = elim (find_line tag s 0) [
  | some i ↦ (set_line s i (touch time), true)
  | none ↦ elim (find_empty s 0) [
    | some i ↦ (set_line s i (λ l. record { tag = tag; valid = true; last_used = time }), false)
    | none ↦ (evict policy optimal tag time s, false)
  ]
]

-- One access to a level, with the trace from it on and its index; the second part is the new
-- `global_timer`. `none` is an index outside the array of sets.
unfoldable pub cache_access :
    ReplacementPolicy → ℕ → CacheLevel → MemAccess → List MemAccess → ℕ → Option (CacheLevel × ℕ)
cache_access policy global_timer cache t future current_idx =
    let time = u32 (global_timer + 1) in
    let index = set_index cache.line_size cache.num_sets t.addr in
    let tag = line_tag cache.line_size cache.num_sets t.addr in
    let optimal =
      λ (s : CacheSet). find_optimal_victim cache.line_size cache.num_sets s future current_idx in
    elim (get_elem? cache.sets index) [
      | none ↦ none
      | some s ↦
          let (s', hit) = access_set policy optimal tag time s in
          some (
            record cache {
              sets = set cache.sets index s';
              hits = if hit then u64 (cache.hits + 1) else cache.hits;
              misses = if hit then cache.misses else u64 (cache.misses + 1);
            },
            time,
          )
    ]

-- The levels of the hierarchy; those above `num_lvls` are not used.
pub record Levels : Type 0 where
  pub l1 : CacheLevel
  pub l2 : CacheLevel
  pub l3 : CacheLevel
  pub global_timer : ℕ

-- `l1.hits == l1_hits_before`, where the copy of the counter is a `uint32_t`.
unfoldable pub missed : CacheLevel → CacheLevel → Bool
missed before after = after.hits == u32 before.hits

-- One round of the loop of `run_cache_sim`.
unfoldable pub sim_access :
    ReplacementPolicy → ℕ → Levels → MemAccess → List MemAccess → ℕ → Option Levels
unfolding missed
sim_access policy num_lvls s t future idx =
    elim (cache_access policy s.global_timer s.l1 t future idx) [
      | none ↦ none
      | some (l1, time1) ↦
          if ltb 1 num_lvls && missed s.l1 l1
          then elim (cache_access policy time1 s.l2 t future idx) [
            | none ↦ none
            | some (l2, time2) ↦
                if ltb 2 num_lvls && missed s.l2 l2
                then elim (cache_access policy time2 s.l3 t future idx) [
                  | none ↦ none
                  | some (l3, time3) ↦
                      some (record { l1 = l1; l2 = l2; l3 = l3; global_timer = time3 })
                ]
                else some (record { l1 = l1; l2 = l2; l3 = s.l3; global_timer = time2 })
          ]
          else some (record { l1 = l1; l2 = s.l2; l3 = s.l3; global_timer = time1 })
    ]

unfoldable pub sim_loop : ReplacementPolicy → ℕ → List MemAccess → ℕ → Levels → Option Levels
sim_loop policy num_lvls [] idx s = some s
sim_loop policy num_lvls (t ∷ ts) idx s = elim (sim_access policy num_lvls s t ts idx) [
  | none ↦ none
  | some s' ↦ sim_loop policy num_lvls ts (suc idx) s'
]
