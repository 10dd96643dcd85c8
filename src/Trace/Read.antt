-- ===== src/Trace/Read.antt =====
-- trace_collector_driver/trace_collector_driver.c: `trace_read` returns the next entries of the log.
use rpi_cpu_emulator_linux_d.Base.{
  ℕ, zero, suc, ◌+◌, ◌*◌, ◌/◌, ◌≤◌, ◌<◌, ◌≡◌, ◌⊎◌, inl, inr, refl, sym, ap, ◌∙◌, arith,
}
use rpi_cpu_emulator_linux_d.Base.{
  pos, Bool, true, false, ltb, if◌then◌else◌, some, Bool-cases, List, [], ◌∷◌, ◌++◌,
}
use rpi_cpu_emulator_linux_d.Base.{
  length, length-append, get_elem?, take, drop, lt_of_get_elem?, drop_of_get_elem?,
}
use mathlib.Core.List.{append-nil, append_assoc}
use native.Mathlib.Decide.{ℕ_discrete}
use rpi_cpu_emulator_linux_d.Uapi.{MemAccess}
use rpi_cpu_emulator_linux_d.Uapi.Status
use rpi_cpu_emulator_linux_d.Trace.Buffer.{TraceBuffer}
use rpi_cpu_emulator_linux_d.Trace.Device.{ReadResult, read_loop, trace_read, sizeof_mem_access}
use rpi_cpu_emulator_linux_d.Trace.Log.{contents, position, IsValid}
use rpi_cpu_emulator_linux_d.Trace.Seek.{ends, finds}
use rpi_cpu_emulator_linux_d.Trace.Seek.{Seeks-of_valid}

-- What the loop has done when it stops.
pub record Takes (copies : ℕ → Bool) (left : ℕ) (out : List MemAccess) (tb : TraceBuffer)
    (r : ReadResult) : Type 0 where
  pub taken : ℕ
  pub at_most : taken ≤ left
  pub there : position tb + taken ≤ length (contents tb.chunks)
  pub next_entries : r.out ≡ out ++ take taken (drop (position tb) (contents tb.chunks))
  pub moved : position r.buffer ≡ position tb + taken
  pub same_log : r.buffer.chunks ≡ tb.chunks
  pub valid : IsValid r.buffer
  pub copied : (k : ℕ) → length out ≤ k → k < length r.out → copies k ≡ true
  pub stops :
      (r.status ≡ pos (length r.out * sizeof_mem_access))
        × ((taken ≡ left) ⊎ (position tb + taken ≡ length (contents tb.chunks)))
      ⊎ (copies (length r.out) ≡ false)
        × (taken < left)
        × (position tb + taken < length (contents tb.chunks))
        × (r.status ≡ (
            if ltb 0 (length r.out) then pos (length r.out * sizeof_mem_access) else Status.efault))

-- Nothing more was taken.
Takes-none :
    (copies : ℕ → Bool) (left : ℕ) (out : List MemAccess) (tb : TraceBuffer)
    → IsValid tb
    → (left ≡ 0) ⊎ (length (contents tb.chunks) ≡ position tb)
    → position tb ≤ length (contents tb.chunks)
    → Takes copies left out tb
        (record { status = pos (length out * sizeof_mem_access); out = out; buffer = tb })
Takes-none copies left out tb v why le = record {
  taken = 0;
  at_most = omega arith;
  there = omega arith;
  next_entries = sym (append-nil out);
  moved = omega arith;
  same_log = refl;
  valid = v;
  copied = λ k lo hi. absurd (omega (arith, lo, hi));
  stops = inl (refl, stop why);
}
  where
    stop :
        (left ≡ 0) ⊎ (length (contents tb.chunks) ≡ position tb)
        → (0 ≡ left) ⊎ (position tb + 0 ≡ length (contents tb.chunks))
    stop (inl z) = inl (sym z)
    stop (inr z) = inr (omega arith)

-- One entry more than the rest of the loop takes.
Takes-suc :
    (copies : ℕ → Bool) (left : ℕ) (out : List MemAccess) (tb tb' : TraceBuffer) (e : MemAccess)
    (r : ReadResult)
    → get_elem? (contents tb.chunks) (position tb) ≡ some e
    → tb'.chunks ≡ tb.chunks
    → position tb' ≡ suc (position tb)
    → copies (length out) ≡ true
    → Takes copies left (out ++ e ∷ []) tb' r
    → Takes copies (suc left) out tb r
Takes-suc copies left out tb tb' e r g same p now t =
    let log : contents tb'.chunks ≡ contents tb.chunks = ap contents same in
    let size : length (contents tb'.chunks) ≡ length (contents tb.chunks) = ap length log in
    record {
      taken = suc t.taken;
      at_most = omega (arith, t.at_most);
      there = omega (arith, t.there, size);
      next_entries =
          t.next_entries
          ∙ (rw (log, p, drop_of_get_elem? (contents tb.chunks) (position tb) e g)
              (append_assoc out (e ∷ [])
                (take t.taken (drop (suc (position tb)) (contents tb.chunks)))));
      moved = omega (arith, t.moved);
      same_log = t.same_log ∙ same;
      valid = t.valid;
      copied = λ k lo hi. elim (ℕ_discrete k (length out)) [
        | yes here ↦ ap copies {x = k} {y = length out} here ∙ now
        | no later ↦ t.copied k (omega (arith, lo, later, length-append out (e ∷ []))) hi
      ];
      stops = ground (arith, t.stops, size, p);
    }

read_loop-Takes :
    (copies : ℕ → Bool) (left : ℕ) (out : List MemAccess) (tb : TraceBuffer)
    → IsValid tb
    → position tb ≤ length (contents tb.chunks)
    → (r : ReadResult) × (read_loop copies left out tb ≡ some r) × Takes copies left out tb r
unfolding read_loop
read_loop-Takes copies zero out tb v le = (_, refl, Takes-none copies 0 out tb v (inl refl) le)
read_loop-Takes copies (suc left) out tb v le = elim (Seeks-of_valid tb v) [
  | ends s e ↦ (_, ground (arith, s), Takes-none copies (suc left) out tb v (inr e) le)
  | finds e tb' s g same p v' v'' p'' ↦ elim (Bool-cases (copies (length out))) [
    | inl copied ↦
        let lt = lt_of_get_elem? (contents tb.chunks) (position tb) g in
        let size : length (contents tb'.chunks) ≡ length (contents tb.chunks) =
          ap (λ t. length (contents t)) same in
        let ih =
          read_loop-Takes copies left (out ++ e ∷ [])
            (record tb' { read_offset = suc tb'.read_offset }) v'' (omega (arith, lt, size, p'')) in
        (
          ih.0,
          ground (arith, s, copied, ih.1),
          Takes-suc copies left out tb _ e ih.0 g same p'' copied ih.2,
        )
    | inr failed ↦ (
      record {
        status = if ltb 0 (length out) then pos (length out * sizeof_mem_access) else Status.efault;
        out = out;
        buffer = tb';
      },
      ground (arith, s, failed),
      record {
        taken = 0;
        at_most = omega arith;
        there = omega arith;
        next_entries = sym (append-nil out);
        moved = omega arith;
        same_log = same;
        valid = v';
        copied = λ k lo hi. absurd (omega (arith, lo, hi));
        stops = inr (
          failed,
          omega arith,
          omega (arith, lt_of_get_elem? (contents tb.chunks) (position tb) g),
          refl,
        );
      },
    )
  ]
]

pub position-le : (tb : TraceBuffer) → IsValid tb → position tb ≤ length (contents tb.chunks)
position-le tb v = elim (Seeks-of_valid tb v) [
  | ends s e ↦ omega arith
  | finds e tb' s g same p v' v'' p'' ↦
      omega (arith, lt_of_get_elem? (contents tb.chunks) (position tb) g)
]

-- From a valid buffer, a read that asks for at least one entry follows no bad pointer. It returns
-- the entries at the read position in the order of the log, whose copies all have succeeded, moves the
-- position past exactly those, and leaves the log as it is. It stops when it has as many entries as fit
-- the length, at the end of the log, or at the first entry whose copy fails; it returns the bytes that
-- it has copied, and -EFAULT only if the first copy fails.
pub trace_read-Takes :
    (len : ℕ) (copies : ℕ → Bool) (tb : TraceBuffer)
    → IsValid tb
    → sizeof_mem_access ≤ len
    → (r : ReadResult) × (trace_read len copies tb ≡ some r)
      × Takes copies (len / sizeof_mem_access) [] tb r
unfolding trace_read
trace_read-Takes len copies tb v le =
    let t = read_loop-Takes copies (len / sizeof_mem_access) [] tb v (position-le tb v) in
    (t.0, ground (arith, t.1), t.2)
