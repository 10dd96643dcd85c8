-- ===== src/Cache/Load/Prefix.antt =====
-- userspace/src/cache_simulator.c: what `load_traces` returns.
use rpi_cpu_emulator_linux_d.Base.{
  ℕ, zero, suc, ◌+◌, ◌*◌, ◌/◌, ◌^◌, ◌≤◌, ◌<◌, ◌≡◌, ◌⊎◌, inl, inr, refl, sym, ap, ◌∙◌, arith,
}
use rpi_cpu_emulator_linux_d.Base.{
  Bool, true, false, ◌&&◌, none, some, Bool-cases, List, [], ◌++◌, ◌==◌, ltb, u64,
}
use rpi_cpu_emulator_linux_d.Base.{length, take, take-add, drop-add, length-append, take-length}
use mathlib.Core.List.{append-nil, append_assoc}
use rpi_cpu_emulator_linux_d.Uapi.{MemAccess}
use rpi_cpu_emulator_linux_d.Trace.Buffer.{TraceBuffer}
use rpi_cpu_emulator_linux_d.Trace.Device.{ReadResult, sizeof_mem_access}
use rpi_cpu_emulator_linux_d.Trace.Log.{contents, position, IsValid}
use rpi_cpu_emulator_linux_d.Trace.Read.{position-le}
use rpi_cpu_emulator_linux_d.Cache.Load.{
  LoadEnv, Loaded, initial_trace_capacity, bytes_read, copy_batch, load_loop, shrink, load_traces,
}
use rpi_cpu_emulator_linux_d.Cache.Load.Batch.{unread, Batch, trace_read-Batch, grow_cases}

-- What the loop leaves, from an array and a state of the device.
pub record LoadsFrom (e : LoadEnv) (traces : List MemAccess) (tb : TraceBuffer) (l : Loaded)
    : Type 0 where
  pub count : ℕ
  pub there : position tb + count ≤ length (contents tb.chunks)
  pub in_order : l.traces ≡ traces ++ take count (unread tb)
  pub fits : length l.traces ≤ l.capacity
  pub complete :
      ((b : ℕ) → e.realloc_ok b ≡ true)
      → ((k i : ℕ) → e.copies k i ≡ true)
      → position tb + count ≡ length (contents tb.chunks)

LoadsFrom-none :
    (e : LoadEnv) (traces : List MemAccess) (capacity : ℕ) (tb tb' : TraceBuffer)
    → IsValid tb
    → length traces ≤ capacity
    → (((b : ℕ) → e.realloc_ok b ≡ true)
        → ((k i : ℕ) → e.copies k i ≡ true)
        → position tb ≡ length (contents tb.chunks))
    → LoadsFrom e traces tb (record { traces = traces; capacity = capacity; device = tb' })
LoadsFrom-none e traces capacity tb tb' v fits done = record {
  count = 0;
  there = omega (arith, position-le tb v);
  in_order = sym (append-nil traces);
  fits = fits;
  complete = λ r c. omega (arith, done r c);
}

LoadsFrom-Batch :
    {e : LoadEnv} {traces : List MemAccess} {tb : TraceBuffer} {r : ReadResult} {l : Loaded}
    {copies : ℕ → Bool}
    → Batch copies tb r
    → LoadsFrom e (traces ++ r.out) r.buffer l
    → LoadsFrom e traces tb l
LoadsFrom-Batch {traces = traces} {tb = tb} {r = r} b more =
    let log : contents r.buffer.chunks ≡ contents tb.chunks = ap contents b.same_log in
    let size : length (contents r.buffer.chunks) ≡ length (contents tb.chunks) = ap length log in
    record {
      count = b.taken + more.count;
      there = omega (arith, more.there, b.moved, size);
      in_order =
          more.in_order
          ∙ append_assoc traces r.out (take more.count (unread r.buffer))
          ∙ ap (λ t. traces ++ t)
              (rw
                (b.next_entries, log, b.moved, drop-add (position tb) b.taken (contents tb.chunks))
                (sym (take-add b.taken more.count (unread tb))));
      fits = more.fits;
      complete = λ x y. omega (arith, more.complete x y, b.moved, size);
    }

load_loop-LoadsFrom :
    (e : LoadEnv) (fuel k capacity : ℕ) (traces : List MemAccess) (tb : TraceBuffer)
    → IsValid tb
    → length traces ≤ capacity
    → initial_trace_capacity ≤ capacity
    → capacity ≤ initial_trace_capacity + 2 * length traces
    → length traces + length (contents tb.chunks) < 2 ^ 56 + position tb
    → length (contents tb.chunks) < position tb + fuel
    → (l : Loaded) × (load_loop e fuel k capacity traces tb ≡ some l) × LoadsFrom e traces tb l
unfolding load_loop copy_batch
load_loop-LoadsFrom e zero k capacity traces tb v fits lo hi small fuel_left =
    absurd (omega (arith, fuel_left, position-le tb v))
load_loop-LoadsFrom e (suc fuel) k capacity traces tb v fits lo hi small fuel_left =
    let (r, b) = trace_read-Batch (e.copies k) tb v in
    let below = position-le tb v in
    elim (Bool-cases (bytes_read r.status == 0)) [
      | inl stop ↦ (
        record { traces = traces; capacity = capacity; device = r.buffer },
        rw (load_loop, b.reads, stop) refl,
        LoadsFrom-none e traces capacity tb r.buffer v fits
            (λ _ all. b.at_end (all k) (ground (arith, stop, b.bytes))),
      )
      | inr go ↦
          let some_taken : 0 < b.taken = ground (arith, go, b.bytes) in
          let entries : bytes_read r.status / sizeof_mem_access ≡ b.taken =
            omega (arith, b.bytes) in
          let needed : u64 (length traces + bytes_read r.status / sizeof_mem_access)
              ≡ length traces + b.taken =
            omega (arith, entries, small, b.at_most, below) in
          let cap_fits : capacity * 32 < 2 ^ 64 = omega (arith, hi, small, below) in
          let all_of : take (bytes_read r.status / sizeof_mem_access) r.out ≡ r.out =
            ap (λ n. take n r.out) (entries ∙ sym b.size) ∙ take-length r.out in
          let longer : length (traces ++ r.out) ≡ length traces + b.taken =
            length-append traces r.out ∙ ap (λ n. length traces + n) b.size in
          let log : length (contents r.buffer.chunks) ≡ length (contents tb.chunks) =
            ap (λ t. length (contents t)) b.same_log in
          elim (grow_cases e capacity
            (u64 (length traces + bytes_read r.status / sizeof_mem_access)) cap_fits) [
              | inr (full, (bytes, refused)) ↦ (
                record { traces = traces; capacity = capacity; device = r.buffer },
                rw (load_loop, b.reads, go, full) refl,
                LoadsFrom-none e traces capacity tb r.buffer v fits
                    (λ all _. absurd (let yes = all bytes in cc)),
              )
              | inl (capacity', grown, larger, how) ↦
                  let room : length traces + b.taken ≤ capacity' =
                    ground (arith, how, needed, lo, fits, b.at_most) in
                  let copied : copy_batch capacity' traces r.out ≡ some (traces ++ r.out) =
                    ground (arith, room, b.size) in
                  let (l, ran, from) =
                    load_loop-LoadsFrom e fuel (suc k) capacity' (traces ++ r.out) r.buffer b.valid
                      (omega (arith, longer, room)) (omega (arith, lo, larger))
                      (ground (arith, how, hi, longer, needed))
                      (omega (arith, longer, log, small, b.moved))
                      (omega (arith, log, fuel_left, b.moved, some_taken)) in
                  (
                    l,
                    rw (load_loop, b.reads, go, grown, all_of, copied) ran,
                    LoadsFrom-Batch b from,
                  )
            ]
    ]

shrink-LoadsFrom :
    {e : LoadEnv} {traces : List MemAccess} {tb : TraceBuffer} (l : Loaded)
    → LoadsFrom e traces tb l
    → LoadsFrom e traces tb (shrink e l)
unfolding shrink
shrink-LoadsFrom {e = e} {traces = traces} {tb = tb} l f =
    elim (Bool-cases (
      ltb 0 (length l.traces)
      && ltb (length l.traces) l.capacity
      && e.realloc_ok (u64 (length l.traces * sizeof_mem_access)))) [
        | inl smaller ↦
            rw (shrink, smaller)
              (record {
                count = f.count;
                there = f.there;
                in_order = f.in_order;
                fits = omega arith;
                complete = f.complete;
              })
        | inr same ↦ rw (shrink, same) f
      ]

-- With a valid buffer of fewer than 2 ^ 56 entries in the device and more fuel than it has unread
-- entries, `load_traces` ends and writes nothing past its array. It returns the null pointer exactly
-- if `malloc` or `open` fails. Otherwise it returns a prefix of the unread entries in order, no longer
-- than the capacity, and all of them if no `realloc` and no copy of an entry fails.
pub load_traces_prefix :
    (e : LoadEnv) (fuel : ℕ) (tb : TraceBuffer)
    → IsValid tb
    → length (contents tb.chunks) < 2 ^ 56
    → length (contents tb.chunks) < position tb + fuel
    → ((load_traces e fuel tb ≡ some none) × (e.malloc_ok && e.open_ok ≡ false))
      ⊎ ((l : Loaded) × (load_traces e fuel tb ≡ some (some l))
          × (e.malloc_ok && e.open_ok ≡ true)
          × LoadsFrom e [] tb l)
unfolding load_traces
load_traces_prefix e fuel tb v small enough = elim (Bool-cases (e.malloc_ok && e.open_ok)) [
  | inr bad ↦ inl (rw (load_traces, bad) refl, bad)
  | inl good ↦
      let (l, ran, f) =
        load_loop-LoadsFrom e fuel 0 initial_trace_capacity [] tb v (omega arith) (omega arith)
          (omega arith) (omega arith) enough in
      inr (shrink e l, rw (load_traces, good, ran) refl, good, shrink-LoadsFrom l f)
]
