-- ===== src/Tests/Traces.antt =====
-- trace_collector_driver/trace_collector_driver.c on concrete inputs.
use rpi_cpu_emulator_linux_d.Base.{
  ℕ, ◌≡◌, ◌⊎◌, ◌/◌, ◌==◌, if◌then◌else◌, refl, arith, ℤ, pos, true, Option, none, some, List, [],
  ◌∷◌, ◌++◌, length, drop,
}
use rpi_cpu_emulator_linux_d.Uapi.{MemAccess}
use rpi_cpu_emulator_linux_d.Uapi.Status
use rpi_cpu_emulator_linux_d.Trace.Buffer.{TraceBuffer, trace_buffer_push}
use rpi_cpu_emulator_linux_d.Trace.Device.{ReadResult, trace_read, sizeof_mem_access}
use rpi_cpu_emulator_linux_d.Trace.Log.{IsValid}
use rpi_cpu_emulator_linux_d.Trace.Push.{Appends, push-Appends}
use rpi_cpu_emulator_linux_d.Trace.Chunks.{LastFull}
use rpi_cpu_emulator_linux_d.Trace.Read.{Takes, trace_read-Takes}
use rpi_cpu_emulator_linux_d.Trace.History.{
  History, Call, write, read, run_calls, start, run_calls_fifo,
}

abbrev pub fetch_access : MemAccess
fetch_access = record { addr = 22; type = 0 }

abbrev pub store_access : MemAccess
store_access = record { addr = 0x100; type = 1 }

-- A buffer with two entries in its one chunk, the first of them read.
abbrev pub two_entries : TraceBuffer
two_entries = record {
  chunks = record { entries = λ i. if i == 0 then fetch_access else store_access; count = 2 } ∷ [];
  total_count = 2;
  write_chunk = some 0;
  read_chunk = some 0;
  read_offset = 1;
}

abbrev pub two_entries-IsValid : IsValid two_entries
two_entries-IsValid = record {
  filled = (omega arith, omega arith);
  writes_last = refl;
  reads_inside = (
    record { entries = λ i. if i == 0 then fetch_access else store_access; count = 2 },
    refl,
    omega arith,
  );
  counted = refl;
}

-- `kmalloc` gives no chunk.
abbrev no_memory : Option (ℕ → MemAccess)
no_memory = none

push-Appends_example :
    (r : ℤ × TraceBuffer) × (trace_buffer_push no_memory store_access two_entries ≡ some r)
    × ((r.0 ≡ pos 0) × Appends store_access two_entries r.1
        ⊎ (r ≡ (Status.enomem, two_entries)) × (no_memory ≡ none) × LastFull two_entries.chunks)
push-Appends_example = push-Appends no_memory store_access two_entries two_entries-IsValid

trace_read-Takes_example :
    (r : ReadResult) × (trace_read 40 (λ k. true) two_entries ≡ some r)
    × Takes (λ k. true) (40 / sizeof_mem_access) [] two_entries r
trace_read-Takes_example =
    trace_read-Takes 40 (λ k. true) two_entries two_entries-IsValid (omega arith)

abbrev some_calls : List Call
some_calls =
    write 16 true fetch_access (some (λ i. store_access))
    ∷ write 8 true fetch_access none
    ∷ read 32 (λ k. true)
    ∷ write 16 true store_access none
    ∷ read 16 (λ k. true)
    ∷ []

run_calls_fifo_example :
    (h : History) × (run_calls some_calls start ≡ some h)
    × (h.returned ++ drop (length h.returned) h.written ≡ h.written)
run_calls_fifo_example = run_calls_fifo some_calls
