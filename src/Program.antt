-- ===== src/Program.antt =====
-- userspace/src/main.c: the phases of the client, from the name of the source file to the report. The
-- trace collector is the model of its module, freshly loaded.
pub mod Report
pub mod Follows
use rpi_cpu_emulator_linux_d.Base.{
  ℕ, suc, ◌+◌, ℤ, pos, negsuc, Bool, true, false, not, Option, none, some, List, [], ◌∷◌, ◌++◌,
  ◌==◌, ltb, if◌then◌else◌, length,
}
use rpi_cpu_emulator_linux_d.Uapi.{MemAccess}
use rpi_cpu_emulator_linux_d.Driver.Dev.{Device}
use rpi_cpu_emulator_linux_d.Trace.Device.{sizeof_mem_access}
use rpi_cpu_emulator_linux_d.Trace.History.{Call, write, History, run_calls, start}
use rpi_cpu_emulator_linux_d.Assembler.Text.{Text}
use rpi_cpu_emulator_linux_d.Assembler.Labels.{Uthash}
use rpi_cpu_emulator_linux_d.Assembler.Passes.{parse_assembly}
use rpi_cpu_emulator_linux_d.Userspace.Memory.{Memory, mem_size}
use rpi_cpu_emulator_linux_d.Userspace.Image.{store_machine_code}
use rpi_cpu_emulator_linux_d.Userspace.Client.{
  Session, Step, continues, exits, kernel_oops, blocks, undefined, RoundEnv, run,
}
use rpi_cpu_emulator_linux_d.Cache.Access.{Levels}
use rpi_cpu_emulator_linux_d.Cache.Load.{LoadEnv}
use rpi_cpu_emulator_linux_d.Cache.Config.{Config}
use rpi_cpu_emulator_linux_d.Cache.Run.{Outcome, run_cache_sim}

-- `./doc/`
abbrev pub doc_prefix : Text
doc_prefix = b'.' ∷ b'/' ∷ b'd' ∷ b'o' ∷ b'c' ∷ b'/' ∷ []

abbrev pub path_size : ℕ
path_size = 128

-- `strcpy` and `strcat` into `path`; `none` is a write past its end, or a null argument.
unfoldable pub build_path : Option Text → Option Text
build_path none = none
build_path (some name) =
    if ltb path_size (length (doc_prefix ++ name) + 1) then none else some (doc_prefix ++ name)

-- What the system and the terminal give to the program.
pub record World : Type 0 where
  pub file : Text → Option (List Text)
  pub devices_open : Bool
  pub device : Device
  pub rounds : List RoundEnv
  pub chunks : ℕ → Option (ℕ → MemAccess)
  pub load : LoadEnv
  pub fuel : ℕ
  pub config : Config
  pub stack : Levels
  pub answers : List (Option ℕ)

-- `uint8_t memory[MEM_SIZE] = {0};`
abbrev pub zero_memory : Memory
zero_memory a = 0

-- The client's writes to the trace collector, numbered for the allocations that they may need.
abbrev pub writes : (ℕ → Option (ℕ → MemAccess)) → ℕ → List MemAccess → List Call
writes chunks k [] = []
writes chunks k (t ∷ ts) = write sizeof_mem_access true t (chunks k) ∷ writes chunks (suc k) ts

pub data Exit : Type 0 where
  success : Outcome → Exit
  failure : Exit
  running waiting faulty : Exit

-- Phase 5. `none` of the simulator is a bad access, or waiting for an answer.
unfoldable pub report : World → List MemAccess → Exit
unfolding run_calls run_cache_sim
report w traces = elim (run_calls (writes w.chunks 0 traces) start) [
  | none ↦ faulty
  | some t ↦ elim (run_cache_sim w.load w.fuel w.config w.stack w.answers t.buffer) [
    | none ↦ faulty
    | some o ↦ success o
  ]
]

-- What follows the return of `run`.
unfoldable pub after_run : World → Step → Exit
unfolding report
after_run w (continues s) = running
after_run w (exits (pos n) s) = if n == 0 then report w s.traces else failure
after_run w (exits (negsuc n) s) = failure
after_run w kernel_oops = faulty
after_run w blocks = waiting
after_run w undefined = faulty

unfoldable pub main : Uthash → World → Option Text → Exit
unfolding build_path after_run
main h w argument = elim (build_path argument) [
  | none ↦ faulty
  | some path ↦ elim (w.file path) [
    | none ↦ failure
    | some lines ↦ elim (parse_assembly h lines) [
      | none ↦ faulty
      | some (instructions, texts) ↦
          if not w.devices_open
          then failure
          else after_run w (
              run (length instructions) w.rounds
                (store_machine_code zero_memory mem_size instructions) w.device)
    ]
  ]
]
