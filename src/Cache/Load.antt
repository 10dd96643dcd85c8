-- ===== src/Cache/Load.antt =====
-- userspace/src/cache_simulator.c: `load_traces`, which reads the device of the trace module until it
-- has no more entries. The device is the model of the other module: its buffer is an argument.
pub mod Batch
pub mod Prefix
use rpi_cpu_emulator_linux_d.Base.{
  ℕ, zero, suc, ◌+◌, ◌*◌, ◌/◌, ℤ, pos, Bool, true, false, ◌&&◌, Option, none, some,
}
use rpi_cpu_emulator_linux_d.Base.{
  List, [], ◌∷◌, ◌++◌, ◌==◌, ltb, leb, if◌then◌else◌, u64, length, take,
}
use rpi_cpu_emulator_linux_d.Uapi.{MemAccess}
use rpi_cpu_emulator_linux_d.Trace.Buffer.{TraceBuffer}
use rpi_cpu_emulator_linux_d.Trace.Device.{trace_read, sizeof_mem_access}

abbrev pub read_batch_size : ℕ
read_batch_size = 256

abbrev pub initial_trace_capacity : ℕ
initial_trace_capacity = 1024

-- What the system answers: `malloc`, `open`, `realloc` for a number of bytes, and whether the copy of
-- an entry of a read succeeds.
pub record LoadEnv : Type 0 where
  pub malloc_ok : Bool
  pub open_ok : Bool
  pub realloc_ok : ℕ → Bool
  pub copies : ℕ → ℕ → Bool

-- The array, with its capacity, and the buffer of the device.
pub record Loaded : Type 0 where
  pub traces : List MemAccess
  pub capacity : ℕ
  pub device : TraceBuffer

-- `bytes_read` where it is positive, and 0 where the loop ends.
abbrev pub bytes_read : ℤ → ℕ
bytes_read (pos n) = n
bytes_read _ = 0

-- The new capacity where `needed` entries do not fit; `none` where `realloc` fails.
unfoldable pub grow : LoadEnv → ℕ → ℕ → Option ℕ
grow e capacity needed =
    if ltb capacity needed
    then (if e.realloc_ok (u64 (u64 (capacity * 2) * sizeof_mem_access))
        then some (u64 (capacity * 2))
        else none)
    else some capacity

-- `memcpy`; `none` is a write past the array.
unfoldable pub copy_batch : ℕ → List MemAccess → List MemAccess → Option (List MemAccess)
copy_batch capacity traces batch =
    if leb (length traces + length batch) capacity then some (traces ++ batch) else none

-- The loop, with the number of the read. `none` is a bad access, or no fuel.
unfoldable pub load_loop : LoadEnv → ℕ → ℕ → ℕ → List MemAccess → TraceBuffer → Option Loaded
unfolding grow copy_batch
load_loop e zero k capacity traces tb = none
load_loop e (suc fuel) k capacity traces tb =
    elim (trace_read (read_batch_size * sizeof_mem_access) (e.copies k) tb) [
      | none ↦ none
      | some r ↦ elim (bytes_read r.status == 0) [
        | true ↦ some (record { traces = traces; capacity = capacity; device = r.buffer })
        | false ↦
            let entries = bytes_read r.status / sizeof_mem_access in
            elim (grow e capacity (u64 (length traces + entries))) [
              | none ↦ some (record { traces = traces; capacity = capacity; device = r.buffer })
              | some capacity' ↦ elim (copy_batch capacity' traces (take entries r.out)) [
                | none ↦ none
                | some traces' ↦ load_loop e fuel (suc k) capacity' traces' r.buffer
              ]
            ]
      ]
    ]

-- `realloc` to the exact size.
unfoldable pub shrink : LoadEnv → Loaded → Loaded
shrink e l =
    if ltb 0 (length l.traces)
      && ltb (length l.traces) l.capacity
      && e.realloc_ok (u64 (length l.traces * sizeof_mem_access))
    then record l { capacity = length l.traces }
    else l

-- The inner `none` is the null pointer.
unfoldable pub load_traces : LoadEnv → ℕ → TraceBuffer → Option (Option Loaded)
unfolding load_loop shrink
load_traces e fuel tb =
    if e.malloc_ok && e.open_ok
    then elim (load_loop e fuel 0 initial_trace_capacity [] tb) [
      | none ↦ none
      | some l ↦ some (some (shrink e l))
    ]
    else some none
