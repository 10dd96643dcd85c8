-- ===== src/Cache/Run.antt =====
-- userspace/src/cache_simulator.c: `run_cache_sim`, from the questions to the numbers of its report.
pub mod Counts
pub mod History
use rpi_cpu_emulator_linux_d.Base.{
  ℕ, suc, ◌+◌, ◌^◌, Bool, true, false, Option, none, some, List, [], ◌∷◌, ◌==◌, ltb, if◌then◌else◌,
  u64, sub64, length,
}
use rpi_cpu_emulator_linux_d.Uapi.{MemAccess}
use rpi_cpu_emulator_linux_d.Trace.Buffer.{TraceBuffer}
use rpi_cpu_emulator_linux_d.Cache.Level.{CacheLevel, cache_init}
use rpi_cpu_emulator_linux_d.Cache.Access.{Levels, sim_loop}
use rpi_cpu_emulator_linux_d.Cache.Load.{LoadEnv, load_traces}
use rpi_cpu_emulator_linux_d.Cache.Config.{Config, configure_cache_sim_parameters}

-- A level that may not be in use; then its variable keeps what the stack held.
unfoldable pub init_if : Bool → ℕ → ℕ → ℕ → CacheLevel → Option CacheLevel
unfolding cache_init
init_if used lvl_size line_size assoc old =
    if used then cache_init lvl_size line_size assoc else some old

-- `none` stands for the use of a level that `cache_init` has not set up.
unfoldable pub init_levels : Config → Levels → Option Levels
unfolding init_if cache_init
init_levels c stack = elim (cache_init c.lvl_size1 c.line_size c.assoc1) [
  | none ↦ none
  | some l1 ↦ elim (init_if (ltb 1 c.num_lvls) c.lvl_size2 c.line_size c.assoc2 stack.l2) [
    | none ↦ none
    | some l2 ↦ elim (init_if (ltb 2 c.num_lvls) c.lvl_size3 c.line_size c.assoc3 stack.l3) [
      | none ↦ none
      | some l3 ↦ some (record { l1 = l1; l2 = l2; l3 = l3; global_timer = stack.global_timer })
    ]
  ]
]

-- The loop `for (int i = 0; i < total_traces; i++)`; `none` is the overflow of `i`.
unfoldable pub count_reads : List MemAccess → ℕ → ℕ → Option ℕ
count_reads [] i num_reads = some num_reads
count_reads (t ∷ ts) i num_reads =
    let rest = count_reads ts (suc i) (if t.type == 0 then u64 (num_reads + 1) else num_reads) in
    if suc i == 2 ^ 31 then none else rest

unfoldable pub ram_visits : ℕ → Levels → ℕ
ram_visits num_lvls s =
    if num_lvls == 1 then s.l1.misses else if num_lvls == 2 then s.l2.misses else s.l3.misses

-- The counts that are printed.
pub record Report : Type 0 where
  pub total_traces : ℕ
  pub num_reads : ℕ
  pub num_writes : ℕ
  pub levels : Levels
  pub ram_visits : ℕ

pub data Outcome : Type 0 where
  no_traces : Outcome
  reported : Report → Outcome

-- The levels are set up, the loop runs, and its counters are printed.
unfoldable pub simulate : Config → Levels → List MemAccess → Option Outcome
unfolding init_levels count_reads ram_visits sim_loop
simulate c stack traces = elim (init_levels c stack) [
  | none ↦ none
  | some start ↦ elim (sim_loop c.policy c.num_lvls traces 0 start) [
    | none ↦ none
    | some levels ↦ elim (count_reads traces 0 0) [
      | none ↦ none
      | some num_reads ↦ some (
          reported (record {
            total_traces = length traces;
            num_reads = num_reads;
            num_writes = sub64 (length traces) num_reads;
            levels = levels;
            ram_visits = ram_visits c.num_lvls levels;
          }))
    ]
  ]
]

-- `none` is a bad access, an overflow, no fuel, or waiting for an answer.
unfoldable pub run_cache_sim :
    LoadEnv → ℕ → Config → Levels → List (Option ℕ) → TraceBuffer → Option Outcome
unfolding configure_cache_sim_parameters load_traces simulate
run_cache_sim e fuel old stack answers tb = elim (configure_cache_sim_parameters old answers) [
  | none ↦ none
  | some (c, rest) ↦ elim (load_traces e fuel tb) [
    | none ↦ none
    | some none ↦ some no_traces
    | some (some l) ↦ elim (length l.traces == 0) [
      | true ↦ some no_traces
      | false ↦ simulate c stack l.traces
    ]
  ]
]
