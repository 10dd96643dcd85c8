-- ===== src/Cache/Load/Batch.antt =====
-- userspace/src/cache_simulator.c: one round of the loop of `load_traces`.
use rpi_cpu_emulator_linux_d.Base.{
  ℕ, ◌+◌, ◌*◌, ◌^◌, ◌≤◌, ◌<◌, ◌≡◌, ◌⊎◌, inl, inr, refl, ap, ◌∙◌, arith,
}
use rpi_cpu_emulator_linux_d.Base.{Bool, true, false, none, some, Bool-cases, List, [], ltb, u64}
use rpi_cpu_emulator_linux_d.Base.{length, take, drop, length-take, length-drop}
use rpi_cpu_emulator_linux_d.Uapi.{MemAccess}
use rpi_cpu_emulator_linux_d.Trace.Buffer.{TraceBuffer}
use rpi_cpu_emulator_linux_d.Trace.Device.{ReadResult, trace_read, sizeof_mem_access}
use rpi_cpu_emulator_linux_d.Trace.Log.{contents, position, IsValid}
use rpi_cpu_emulator_linux_d.Trace.Read.{Takes, trace_read-Takes}
use rpi_cpu_emulator_linux_d.Cache.Load.{LoadEnv, read_batch_size, bytes_read, grow}

-- The entries that the device has not returned yet.
abbrev pub unread : TraceBuffer → List MemAccess
unread tb = drop (position tb) (contents tb.chunks)

-- One read of the loop.
pub record Batch (copies : ℕ → Bool) (tb : TraceBuffer) (r : ReadResult) : Type 0 where
  pub reads : trace_read (read_batch_size * sizeof_mem_access) copies tb ≡ some r
  pub taken : ℕ
  pub at_most : taken ≤ read_batch_size
  pub there : position tb + taken ≤ length (contents tb.chunks)
  pub bytes : bytes_read r.status ≡ taken * sizeof_mem_access
  pub size : length r.out ≡ taken
  pub next_entries : r.out ≡ take taken (unread tb)
  pub moved : position r.buffer ≡ position tb + taken
  pub same_log : r.buffer.chunks ≡ tb.chunks
  pub valid : IsValid r.buffer
  pub at_end : ((i : ℕ) → copies i ≡ true) → taken ≡ 0 → position tb ≡ length (contents tb.chunks)

bytes_of :
    {copies : ℕ → Bool} {left : ℕ} {tb : TraceBuffer} {r : ReadResult}
    → Takes copies left [] tb r
    → bytes_read r.status ≡ length r.out * sizeof_mem_access
bytes_of {r = r} t = elim (t.stops) [
  | inl (e, why) ↦ ap bytes_read e
  | inr (f, a, b, e) ↦ elim (Bool-cases (ltb 0 (length r.out))) [
    | inl some_out ↦ rw (e, some_out) refl
    | inr no_out ↦ rw (e, no_out) (ground (arith, no_out))
  ]
]

pub trace_read-Batch :
    (copies : ℕ → Bool) (tb : TraceBuffer) → IsValid tb → (r : ReadResult) × Batch copies tb r
trace_read-Batch copies tb v =
    let (r, e, t) =
      trace_read-Takes (read_batch_size * sizeof_mem_access) copies tb v (omega arith) in
    let size : length r.out ≡ t.taken =
      ap length t.next_entries
      ∙ length-take t.taken (unread tb)
      ∙ omega (arith, t.there, length-drop (position tb) (contents tb.chunks)) in
    (
      r,
      record {
        reads = e;
        taken = t.taken;
        at_most = omega (arith, t.at_most);
        there = t.there;
        bytes = omega (arith, bytes_of t, size);
        size = size;
        next_entries = t.next_entries;
        moved = t.moved;
        same_log = t.same_log;
        valid = t.valid;
        at_end = λ all z. ground (arith, t.stops, all (length r.out));
      },
    )

-- A larger array for one more batch.
pub grow_cases :
    (e : LoadEnv) (capacity needed : ℕ)
    → capacity * 32 < 2 ^ 64
    → ((capacity' : ℕ) × (grow e capacity needed ≡ some capacity')
        × (capacity ≤ capacity')
        × ((capacity' ≡ capacity) × (needed ≤ capacity)
            ⊎ (capacity' ≡ capacity * 2) × (capacity < needed)))
      ⊎ ((grow e capacity needed ≡ none) × ((b : ℕ) × (e.realloc_ok b ≡ false)))
unfolding grow
grow_cases e capacity needed fits = elim (Bool-cases (ltb capacity needed)) [
  | inr enough ↦
      inl (capacity, rw (grow, enough) refl, omega arith, inl (refl, ground (arith, enough)))
  | inl short ↦
      let bytes = u64 (u64 (capacity * 2) * sizeof_mem_access) in
      elim (Bool-cases (e.realloc_ok bytes)) [
        | inl got ↦ inl (
          u64 (capacity * 2),
          rw (grow, short, got) refl,
          omega (arith, fits),
          inr (omega (arith, fits), ground (arith, short)),
        )
        | inr refused ↦ inr (rw (grow, short, refused) refl, (bytes, refused))
      ]
]
