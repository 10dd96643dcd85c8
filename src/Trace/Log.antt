-- ===== src/Trace/Log.antt =====
-- trace_collector_driver/trace_collector_driver.c: what the buffer stands for, a log of accesses with
-- a read position, and the invariant of its chunks and pointers.
use rpi_cpu_emulator_linux_d.Base.{ℕ, zero, suc, ◌+◌, ◌*◌, ◌≤◌, ◌<◌, ◌≡◌, Option, none, some}
use rpi_cpu_emulator_linux_d.Base.{List, [], ◌∷◌, ◌++◌, u64, length, get_elem?}
use rpi_cpu_emulator_linux_d.Uapi.{MemAccess}
use rpi_cpu_emulator_linux_d.Trace.Buffer.{TraceChunk, TraceBuffer, chunk_size}

-- The `n` entries of an array from index `i` on.
abbrev pub window : (ℕ → MemAccess) → ℕ → ℕ → List MemAccess
window a i zero = []
window a i (suc n) = a i ∷ window a (suc i) n

-- The entries of the chunks, oldest first.
abbrev pub contents : List TraceChunk → List MemAccess
contents [] = []
contents (c ∷ cs) = window c.entries 0 c.count ++ contents cs

-- How many entries have been read.
abbrev pub position : TraceBuffer → ℕ
position tb = elim (tb.read_chunk) [ none ↦ 0 | some r ↦ chunk_size * r + tb.read_offset ]

-- Every chunk but the last is full, and the last is not empty.
abbrev pub IsFilled : List TraceChunk → Type 0
IsFilled [] = Unit {0}
IsFilled (c ∷ []) = (0 < c.count) × (c.count ≤ chunk_size)
IsFilled (c ∷ d ∷ cs) = (c.count ≡ chunk_size) × IsFilled (d ∷ cs)

-- The position of the last chunk.
abbrev pub last_of : List TraceChunk → Option ℕ
last_of [] = none
last_of (c ∷ cs) = some (length cs)

-- The read pointer is NULL only before the first chunk, and the offset stays within its chunk.
abbrev pub ReadsInside : List TraceChunk → Option ℕ → ℕ → Type 0
ReadsInside [] none offset = Unit {0}
ReadsInside (c ∷ cs) none offset = ⊥
ReadsInside cs (some r) offset = (c : TraceChunk) × (get_elem? cs r ≡ some c) × (offset ≤ c.count)

pub record IsValid (tb : TraceBuffer) : Type 0 where
  pub filled : IsFilled tb.chunks
  pub writes_last : tb.write_chunk ≡ last_of tb.chunks
  pub reads_inside : ReadsInside tb.chunks tb.read_chunk tb.read_offset
  pub counted : tb.total_count ≡ u64 (length (contents tb.chunks))
