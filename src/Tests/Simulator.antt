-- ===== src/Tests/Simulator.antt =====
-- userspace/src/cache_simulator.c, from the questions to the report, on concrete inputs.
use rpi_cpu_emulator_linux_d.Base.{
  ℕ, ◌≡◌, ◌⊎◌, refl, arith, true, false, ◌&&◌, Option, some, none, List, [], ◌∷◌,
}
use rpi_cpu_emulator_linux_d.Trace.Buffer.{
  update, needs_chunk, add_chunk, append_entry, trace_buffer_push, trace_buffer_init,
}
use rpi_cpu_emulator_linux_d.Trace.Device.{trace_write, trace_read, read_loop, seek, entry_at}
use rpi_cpu_emulator_linux_d.Trace.History.{Call, write, read, History, run_call, run_calls, start}
use rpi_cpu_emulator_linux_d.Cache.Geometry.{is_power_of_two}
use rpi_cpu_emulator_linux_d.Cache.Level.{alg_lru, alg_optimal}
use rpi_cpu_emulator_linux_d.Cache.Load.{LoadEnv, Loaded, load_traces}
use rpi_cpu_emulator_linux_d.Cache.Load.Prefix.{LoadsFrom, load_traces_prefix}
use rpi_cpu_emulator_linux_d.Cache.Config.{
  Config, get_valid_input, ask_if, policy_of, configure_cache_sim_parameters, is_valid_num_lvls,
  is_valid_line_size, is_valid_assoc, is_valid_lvl_size, is_valid_algorithm_num,
}
use rpi_cpu_emulator_linux_d.Cache.Config.Accepts.{AreBuilt, configure-AreBuilt}
use rpi_cpu_emulator_linux_d.Cache.Run.{Outcome, run_cache_sim}
use rpi_cpu_emulator_linux_d.Cache.Run.History.{Explains, run_cache_sim-history}
use rpi_cpu_emulator_linux_d.Tests.Traces.{
  fetch_access, store_access, two_entries, two_entries-IsValid,
}
use rpi_cpu_emulator_linux_d.Tests.Caches.{small_levels}

abbrev pub calls_work : LoadEnv
calls_work = record {
  malloc_ok = true;
  open_ok = true;
  realloc_ok = λ bytes. true;
  copies = λ k i. true;
}

load_traces_prefix_example :
    ((load_traces calls_work 2 two_entries ≡ some none) × (true && true ≡ false))
    ⊎ ((l : Loaded) × (load_traces calls_work 2 two_entries ≡ some (some l))
        × (true && true ≡ true)
        × LoadsFrom calls_work [] two_entries l)
load_traces_prefix_example =
    load_traces_prefix calls_work 2 two_entries two_entries-IsValid (omega arith) (omega arith)

abbrev pub unset : Config
unset = record {
  num_lvls = 0;
  line_size = 0;
  assoc1 = 0;
  assoc2 = 0;
  assoc3 = 0;
  lvl_size1 = 0;
  lvl_size2 = 0;
  lvl_size3 = 0;
  policy = alg_lru;
}

-- Two levels; a word and a size that is too small are asked for again.
abbrev pub some_answers : List (Option ℕ)
some_answers =
    none ∷ some 2 ∷ some 64 ∷ some 2 ∷ some 4 ∷ some 64 ∷ some 256 ∷ some 1024 ∷ some 1 ∷ []

abbrev pub some_config : Config
some_config = record {
  num_lvls = 2;
  line_size = 64;
  assoc1 = 2;
  assoc2 = 4;
  assoc3 = 0;
  lvl_size1 = 256;
  lvl_size2 = 1024;
  lvl_size3 = 0;
  policy = alg_optimal;
}

pub some_answers-accepted :
    configure_cache_sim_parameters unset some_answers ≡ some (some_config, [])
unfolding configure_cache_sim_parameters get_valid_input ask_if policy_of is_valid_num_lvls
    is_valid_line_size is_valid_assoc is_valid_lvl_size is_valid_algorithm_num is_power_of_two
some_answers-accepted = refl

configure-AreBuilt_example : AreBuilt some_config
configure-AreBuilt_example =
    configure-AreBuilt unset some_config some_answers [] some_answers-accepted

-- Three accesses are written, and the first is read before the simulator starts.
abbrev some_calls : List Call
some_calls =
    write 16 true fetch_access (some (λ i. store_access))
    ∷ write 16 true store_access none
    ∷ read 16 (λ k. true)
    ∷ write 16 true fetch_access none
    ∷ []

abbrev collected : History
collected = record {
  written = fetch_access ∷ store_access ∷ fetch_access ∷ [];
  returned = fetch_access ∷ [];
  buffer = record {
    chunks =
        record {
          entries =
              update (update (update (λ i. store_access) 0 fetch_access) 1 store_access) 2
                fetch_access;
          count = 3;
        }
        ∷ [];
    total_count = 3;
    write_chunk = some 0;
    read_chunk = some 0;
    read_offset = 1;
  };
}

some_calls-collected : run_calls some_calls start ≡ some collected
unfolding run_calls run_call trace_write trace_read read_loop seek entry_at trace_buffer_push
    needs_chunk add_chunk append_entry update trace_buffer_init
some_calls-collected = refl

run_cache_sim-history_example :
    (o : Outcome) × (run_cache_sim calls_work 4 unset small_levels some_answers collected.buffer
      ≡ some o)
    × Explains calls_work 2 (store_access ∷ fetch_access ∷ []) o
run_cache_sim-history_example =
    run_cache_sim-history some_calls collected calls_work 4 unset some_config small_levels
      some_answers [] some_calls-collected (omega arith) (omega arith) some_answers-accepted
