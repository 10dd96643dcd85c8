-- ===== src/Trace/Buffer.antt =====
-- trace_collector_driver/trace_collector_driver.c: `trace_chunk`, `trace_buffer`, and the functions
-- on them. The list of chunks only grows at its tail, so a pointer to a chunk is its position, and
-- `none` is NULL. An array is a function of the index.
use rpi_cpu_emulator_linux_d.Base.{ℕ, suc, ◌+◌, ℤ, pos, Bool, true, false, Option, none, some}
use rpi_cpu_emulator_linux_d.Base.{List, [], ◌∷◌, ◌++◌, ◌==◌, if◌then◌else◌, u64}
use rpi_cpu_emulator_linux_d.Base.{length, get_elem?, set}
use rpi_cpu_emulator_linux_d.Uapi.{MemAccess}
use rpi_cpu_emulator_linux_d.Uapi.Status

abbrev pub chunk_size : ℕ
chunk_size = 256

pub record TraceChunk : Type 0 where
  pub entries : ℕ → MemAccess
  pub count : ℕ

pub record TraceBuffer : Type 0 where
  pub chunks : List TraceChunk
  pub total_count : ℕ
  pub write_chunk : Option ℕ
  pub read_chunk : Option ℕ
  pub read_offset : ℕ

unfoldable pub trace_buffer_init : TraceBuffer
trace_buffer_init = record {
  chunks = [];
  total_count = 0;
  write_chunk = none;
  read_chunk = none;
  read_offset = 0;
}

-- Every chunk is unlinked and freed.
unfoldable pub trace_buffer_free : TraceBuffer → TraceBuffer
trace_buffer_free tb = record {
  chunks = [];
  total_count = 0;
  write_chunk = none;
  read_chunk = none;
  read_offset = 0;
}

-- `entries[i] = e`
unfoldable pub update : (ℕ → MemAccess) → ℕ → MemAccess → ℕ → MemAccess
update a i e j = if i == j then e else a j

-- The chunk that `write_chunk` points to is missing or full. The outer `none` is a dangling pointer.
unfoldable pub needs_chunk : TraceBuffer → Option Bool
needs_chunk tb = elim (tb.write_chunk) [
  | none ↦ some true
  | some w ↦ elim (get_elem? tb.chunks w) [ none ↦ none | some c ↦ some (c.count == chunk_size) ]
]

-- A new chunk at the tail of the list; `junk` is what `kmalloc` leaves in its array.
unfoldable pub add_chunk : (ℕ → MemAccess) → TraceBuffer → TraceBuffer
add_chunk junk tb =
    let new = length tb.chunks in
    let tb' = record tb {
      chunks = tb.chunks ++ record { entries = junk; count = 0 } ∷ [];
      write_chunk = some new;
    } in
    elim (tb.read_chunk) [
      | none ↦ record tb' { read_chunk = some new; read_offset = 0 }
      | some r ↦ tb'
    ]

-- `write_chunk->entries[write_chunk->count++] = *entry; total_count++`
unfoldable pub append_entry : MemAccess → TraceBuffer → Option TraceBuffer
unfolding update
append_entry e tb = elim (tb.write_chunk) [
  | none ↦ none
  | some w ↦ elim (get_elem? tb.chunks w) [
    | none ↦ none
    | some c ↦
        let c' = record c { entries = update c.entries c.count e; count = suc c.count } in
        some (record tb { chunks = set tb.chunks w c'; total_count = u64 (tb.total_count + 1) })
  ]
]

-- The status and the new buffer. `kmalloc` is what the allocation returns if it is made.
unfoldable pub trace_buffer_push :
    Option (ℕ → MemAccess) → MemAccess → TraceBuffer → Option (ℤ × TraceBuffer)
trace_buffer_push kmalloc e tb = elim (needs_chunk tb) [
  | none ↦ none
  | some true ↦ elim kmalloc [
    | none ↦ some (Status.enomem, tb)
    | some junk ↦ elim (append_entry e (add_chunk junk tb)) [
      | none ↦ none
      | some tb' ↦ some (pos 0, tb')
    ]
  ]
  | some false ↦ elim (append_entry e tb) [ none ↦ none | some tb' ↦ some (pos 0, tb') ]
]
