-- ===== src/Trace/Push.antt =====
-- trace_collector_driver/trace_collector_driver.c: `trace_buffer_push` adds one entry to the log.
use rpi_cpu_emulator_linux_d.Base.{
  ℕ, zero, suc, ◌+◌, ◌≤◌, ◌<◌, ◌≡◌, ◌⊎◌, inl, inr, refl, sym, ap, ◌∙◌, arith,
}
use rpi_cpu_emulator_linux_d.Base.{
  ℤ, pos, true, false, ◌==◌, Option, none, some, Option-cases, Bool-cases, List, [], ◌∷◌, ◌++◌, u64,
}
use rpi_cpu_emulator_linux_d.Base.{length, get_elem?, set, length-append, get_elem?_total}
use mathlib.Core.Option.{some-injective}
use rpi_cpu_emulator_linux_d.Uapi.{MemAccess}
use rpi_cpu_emulator_linux_d.Uapi.Status
use rpi_cpu_emulator_linux_d.Trace.Buffer.{TraceChunk, TraceBuffer, chunk_size, update, needs_chunk}
use rpi_cpu_emulator_linux_d.Trace.Buffer.{add_chunk, append_entry, trace_buffer_push}
use rpi_cpu_emulator_linux_d.Trace.Log.{contents, position, IsFilled, last_of, ReadsInside, IsValid}
use rpi_cpu_emulator_linux_d.Trace.Chunks.{
  more, contents-append, contents-set_last, IsFilled-set_last, last_of-set, last_of-length,
  reads-set_last, get_elem?-snoc, set-snoc, get_elem?-append, last_of-snoc, LastFull, IsFilled-snoc,
}

-- One entry at the end of the log, with everything else as it was.
pub record Appends (e : MemAccess) (tb tb' : TraceBuffer) : Type 0 where
  pub valid : IsValid tb'
  pub one_more : contents tb'.chunks ≡ contents tb.chunks ++ e ∷ []
  pub same_position : position tb' ≡ position tb

-- The two ways to append: into the last chunk, and into a new one.
append_into_last :
    (e : MemAccess) (tb : TraceBuffer) (w : ℕ) (c : TraceChunk)
    → IsValid tb
    → tb.write_chunk ≡ some w
    → get_elem? tb.chunks w ≡ some c
    → c.count < chunk_size
    → (tb' : TraceBuffer) × (append_entry e tb ≡ some tb') × Appends e tb tb'
unfolding append_entry
append_into_last e tb w c v wc g lt =
    let last : suc w ≡ length tb.chunks = last_of-length tb.chunks w (sym v.writes_last ∙ wc) in
    let grown = contents-set_last e tb.chunks w c last g in
    (
      record tb { chunks = set tb.chunks w (more e c); total_count = u64 (tb.total_count + 1) },
      ground (arith, wc, g),
      record {
        valid = record {
          filled = IsFilled-set_last e tb.chunks w c last g lt v.filled;
          writes_last = v.writes_last ∙ sym (last_of-set tb.chunks w (more e c));
          reads_inside =
              reads-set_last e tb.chunks w c tb.read_chunk tb.read_offset g v.reads_inside;
          counted = rw grown (rw length-append (omega (arith, v.counted)));
        };
        one_more = grown;
        same_position = refl;
      },
    )

abbrev empty_chunk : (ℕ → MemAccess) → TraceChunk
empty_chunk junk = record { entries = junk; count = 0 }

-- What the read pointer becomes.
reads-snoc :
    (cs : List TraceChunk) (x : TraceChunk) (read : Option ℕ) (offset : ℕ)
    → ReadsInside cs read offset
    → ReadsInside
        (cs ++ x ∷ [])
        (some (elim read [ none ↦ length cs | some r ↦ r ]))
        (elim read [ none ↦ 0 | some r ↦ offset ])
reads-snoc [] x none offset h = (x, refl, omega arith)
reads-snoc (c ∷ cs) x none offset h = absurd h
reads-snoc cs x (some r) offset h = (h.0, get_elem?-append cs (x ∷ []) r h.0 h.1, h.2)

no_reader :
    (cs : List TraceChunk) (read : Option ℕ) (offset : ℕ)
    → ReadsInside cs read offset
    → read ≡ none
    → length cs ≡ 0
no_reader [] read offset h n = refl
no_reader (c ∷ cs) none offset h n = absurd h
no_reader (c ∷ cs) (some r) offset h n = absurd (cc)

append_into_new :
    (junk : ℕ → MemAccess) (e : MemAccess) (tb : TraceBuffer)
    → IsValid tb
    → LastFull tb.chunks
    → (tb' : TraceBuffer) × (append_entry e (add_chunk junk tb) ≡ some tb') × Appends e tb tb'
unfolding append_entry add_chunk
append_into_new junk e tb v full =
    let cs = tb.chunks in
    let new : TraceChunk = empty_chunk junk in
    let placed = set-snoc cs new (more e new) in
    let grown : contents (cs ++ more e new ∷ []) ≡ contents cs ++ e ∷ [] =
      contents-append cs (more e new ∷ []) ∙ ap (λ t. contents cs ++ t) (first_entry junk e) in
    (
      record {
        chunks = cs ++ more e new ∷ [];
        total_count = u64 (tb.total_count + 1);
        write_chunk = some (length cs);
        read_chunk = some (elim (tb.read_chunk) [ none ↦ length cs | some r ↦ r ]);
        read_offset = elim (tb.read_chunk) [ none ↦ 0 | some r ↦ tb.read_offset ];
      },
      elim (Option-cases tb.read_chunk) [
        | inl n ↦ ground (arith, n, placed, get_elem?-snoc cs new)
        | inr (r, n) ↦ ground (arith, n, placed, get_elem?-snoc cs new)
      ],
      record {
        valid = record {
          filled = IsFilled-snoc cs (more e new) v.filled full (omega arith) (omega arith);
          writes_last = sym (last_of-snoc cs (more e new));
          reads_inside = reads-snoc cs (more e new) tb.read_chunk tb.read_offset v.reads_inside;
          counted = rw grown (rw length-append (omega (arith, v.counted)));
        };
        one_more = grown;
        same_position = ground (arith, no_reader cs tb.read_chunk tb.read_offset v.reads_inside);
      },
    )
  where
    first_entry :
        (junk : ℕ → MemAccess) (e : MemAccess) → contents (more e (empty_chunk junk) ∷ []) ≡ e ∷ []
    first_entry junk e = unfold update in refl

-- Whether a chunk is needed is decided without a bad pointer.
data Room (tb : TraceBuffer) : Type 0 where
  in_last :
      (w : ℕ) (c : TraceChunk)
      → needs_chunk tb ≡ some false
      → tb.write_chunk ≡ some w
      → get_elem? tb.chunks w ≡ some c
      → c.count < chunk_size
      → Room tb
  in_new : needs_chunk tb ≡ some true → LastFull tb.chunks → Room tb

count-le :
    (cs : List TraceChunk) (w : ℕ) (c : TraceChunk)
    → IsFilled cs
    → get_elem? cs w ≡ some c
    → c.count ≤ chunk_size
count-le [] w c f g = absurd (cc)
count-le (d ∷ []) zero c f g = ground arith
count-le (d ∷ []) (suc w) c f g = absurd (cc)
count-le (d ∷ d' ∷ cs) zero c f g = ground arith
count-le (d ∷ d' ∷ cs) (suc w) c f g = count-le (d' ∷ cs) w c f.1 g

last_of-none : (cs : List TraceChunk) → last_of cs ≡ none → length cs ≡ 0
last_of-none [] h = refl
last_of-none (c ∷ cs) h = absurd (cc)

intro_LastFull :
    (cs : List TraceChunk) (w : ℕ) (c : TraceChunk)
    → suc w ≡ length cs
    → get_elem? cs w ≡ some c
    → c.count ≡ chunk_size
    → LastFull cs
intro_LastFull cs w c last g full w' c' last' g' =
    let same : w' ≡ w = omega arith in
    let chunk : c' ≡ c = some-injective c' c (sym g' ∙ ap (get_elem? cs) same ∙ g) in rw chunk full

Room-of_valid : (tb : TraceBuffer) → IsValid tb → Room tb
unfolding needs_chunk
Room-of_valid tb v = elim (Option-cases (last_of tb.chunks)) [
  | inl e ↦
      Room.in_new (ground (arith, v.writes_last, e))
        (λ w c h g. absurd (omega (arith, last_of-none tb.chunks e)))
  | inr (w, e) ↦
      room w e (get_elem?_total tb.chunks w (omega (arith, last_of-length tb.chunks w e)))
]
  where
    room :
        (w : ℕ)
        → last_of tb.chunks ≡ some w
        → (c : TraceChunk) × (get_elem? tb.chunks w ≡ some c)
        → Room tb
    room w e (c, g) = elim (Bool-cases (c.count == chunk_size)) [
      | inl full ↦
          Room.in_new (ground (arith, v.writes_last, e, g, full))
            (intro_LastFull tb.chunks w c (last_of-length tb.chunks w e) g (ground arith))
      | inr lt ↦
          Room.in_last w c (ground (arith, v.writes_last, e, g, lt)) (v.writes_last ∙ e) g
            (ground (arith, count-le tb.chunks w c v.filled g))
    ]

-- From a valid buffer `trace_buffer_push` follows no bad pointer. It returns 0 with the entry at the
-- end of the log, the read position where it was and the buffer valid; or, only if a chunk is
-- needed and cannot be allocated, -ENOMEM with the buffer untouched.
pub push-Appends :
    (kmalloc : Option (ℕ → MemAccess)) (e : MemAccess) (tb : TraceBuffer)
    → IsValid tb
    → (r : ℤ × TraceBuffer) × (trace_buffer_push kmalloc e tb ≡ some r)
      × ((r.0 ≡ pos 0) × Appends e tb r.1
          ⊎ (r ≡ (Status.enomem, tb)) × (kmalloc ≡ none) × LastFull tb.chunks)
unfolding trace_buffer_push
push-Appends kmalloc e tb v = elim (Room-of_valid tb v) [
  | in_last w c n wc g lt ↦
      let a = append_into_last e tb w c v wc g lt in
      ((pos 0, a.0), ground (arith, n, a.1), inl (refl, a.2))
  | in_new n full ↦ elim (Option-cases kmalloc) [
    | inl k ↦ ((Status.enomem, tb), ground (arith, n, k), inr (refl, k, full))
    | inr (junk, k) ↦
        let a = append_into_new junk e tb v full in
        ((pos 0, a.0), ground (arith, n, k, a.1), inl (refl, a.2))
  ]
]
