-- ===== src/Trace/Device.antt =====
-- trace_collector_driver/trace_collector_driver.c: the operations of the character device. Each holds
-- the mutex over its whole access to the buffer, so it is one step on it.
use rpi_cpu_emulator_linux_d.Base.{
  ℕ, zero, suc, ◌*◌, ◌/◌, ℤ, pos, Bool, true, false, Option, none, some,
}
use rpi_cpu_emulator_linux_d.Base.{List, [], ◌∷◌, ◌++◌, ◌==◌, ltb, leb, not, if◌then◌else◌}
use rpi_cpu_emulator_linux_d.Base.{length, get_elem?}
use rpi_cpu_emulator_linux_d.Uapi.{MemAccess}
use rpi_cpu_emulator_linux_d.Uapi.Status
use rpi_cpu_emulator_linux_d.Trace.Buffer.{TraceBuffer, trace_buffer_push}

abbrev pub sizeof_mem_access : ℕ
sizeof_mem_access = 16

-- From the length, whether `copy_from_user` succeeds, what it copies, and what `kmalloc` returns.
unfoldable pub trace_write :
    ℕ → Bool → MemAccess → Option (ℕ → MemAccess) → TraceBuffer → Option (ℤ × TraceBuffer)
trace_write len copied entry kmalloc tb =
    if ltb len sizeof_mem_access
    then some (Status.einval, tb)
    else if not copied
    then some (Status.efault, tb)
    else elim (trace_buffer_push kmalloc entry tb) [
      | none ↦ none
      | some (pos zero, tb') ↦ some (pos sizeof_mem_access, tb')
      | some (ret, tb') ↦ some (ret, tb')
    ]

-- The next entry, with the read position moved to its chunk; the end of the data; or an access
-- through a bad pointer.
pub data Seek : Type 0 where
  found : MemAccess → TraceBuffer → Seek
  at_end : Seek
  bad_pointer : Seek

unfoldable pub entry_at : TraceBuffer → ℕ → ℕ → Seek
entry_at tb r offset = elim (get_elem? tb.chunks r) [
  | none ↦ bad_pointer
  | some c ↦ found (c.entries offset) (record tb { read_chunk = some r; read_offset = offset })
]

unfoldable pub seek : TraceBuffer → Seek
unfolding entry_at
seek tb = elim (tb.read_chunk) [
  | none ↦ at_end
  | some r ↦ elim (get_elem? tb.chunks r) [
    | none ↦ bad_pointer
    | some c ↦
        if leb c.count tb.read_offset
        then if suc r == length tb.chunks then at_end else entry_at tb (suc r) 0
        else entry_at tb r tb.read_offset
  ]
]

-- What a read leaves: its status, the entries that reached the caller, and the buffer.
pub record ReadResult : Type 0 where
  pub status : ℤ
  pub out : List MemAccess
  pub buffer : TraceBuffer

-- The loop with `left` more entries to copy; `copies k` tells whether the copy of entry `k`
-- succeeds. `none` is an access through a bad pointer.
unfoldable pub read_loop : (ℕ → Bool) → ℕ → List MemAccess → TraceBuffer → Option ReadResult
read_loop copies zero out tb =
    some (record { status = pos (length out * sizeof_mem_access); out = out; buffer = tb })
read_loop copies (suc left) out tb = elim (seek tb) [
  | bad_pointer ↦ none
  | at_end ↦ some (record { status = pos (length out * sizeof_mem_access); out = out; buffer = tb })
  | found e tb' ↦ elim (copies (length out)) [
    | true ↦
        read_loop copies left (out ++ e ∷ []) (record tb' { read_offset = suc tb'.read_offset })
    | false ↦ some (record {
      status = if ltb 0 (length out) then pos (length out * sizeof_mem_access) else Status.efault;
      out = out;
      buffer = tb';
    })
  ]
]

unfoldable pub trace_read : ℕ → (ℕ → Bool) → TraceBuffer → Option ReadResult
trace_read len copies tb =
    if ltb len sizeof_mem_access
    then some (record { status = Status.einval; out = []; buffer = tb })
    else read_loop copies (len / sizeof_mem_access) [] tb
