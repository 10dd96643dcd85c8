-- ===== src/Trace/Seek.antt =====
-- trace_collector_driver/trace_collector_driver.c: where `trace_read` finds the next entry of the
-- log.
use rpi_cpu_emulator_linux_d.Base.{
  ℕ, zero, suc, ◌+◌, ◌*◌, ◌≤◌, ◌<◌, ◌≡◌, inl, inr, refl, sym, ap, ◌∙◌, arith,
}
use rpi_cpu_emulator_linux_d.Base.{
  true, false, leb, ◌==◌, Option, none, some, Option-cases, Bool-cases, List, [], ◌∷◌, ◌++◌,
}
use rpi_cpu_emulator_linux_d.Base.{
  length, get_elem?, length-append, lt_of_get_elem?, get_elem?_total, get_elem?-append_right,
}
use mathlib.Core.Option.{some-injective}
use mathlib.Core.List.{append-nil}
use rpi_cpu_emulator_linux_d.Uapi.{MemAccess}
use rpi_cpu_emulator_linux_d.Trace.Buffer.{TraceChunk, TraceBuffer, chunk_size}
use rpi_cpu_emulator_linux_d.Trace.Device.{found, at_end, entry_at, seek}
use rpi_cpu_emulator_linux_d.Trace.Log.{window, contents, position, IsFilled, ReadsInside, IsValid}

pub length-window : (a : ℕ → MemAccess) (i n : ℕ) → length (window a i n) ≡ n
length-window a i zero = refl
length-window a i (suc n) = ap suc (length-window a (suc i) n)

pub get_elem?-window :
    (a : ℕ → MemAccess) (i n o : ℕ) (rest : List MemAccess)
    → o < n
    → get_elem? (window a i n ++ rest) o ≡ some (a (i + o))
get_elem?-window a i zero o rest h = absurd (omega arith)
get_elem?-window a i (suc n) zero rest h = ap (λ t. some (a t)) (omega arith)
get_elem?-window a i (suc n) (suc o) rest h =
    get_elem?-window a (suc i) n o rest (omega arith) ∙ ap (λ t. some (a t)) (omega arith)

-- Where an entry of a chunk stands in the log.
pub get_elem?-contents :
    (cs : List TraceChunk) (r o : ℕ) (c : TraceChunk)
    → IsFilled cs
    → get_elem? cs r ≡ some c
    → o < c.count
    → get_elem? (contents cs) (chunk_size * r + o) ≡ some (c.entries o)
get_elem?-contents [] r o c f g lt = absurd (cc)
get_elem?-contents (d ∷ cs) zero o c f g lt =
    let d_is_c : d ≡ c = some-injective d c g in
    rw d_is_c (
      ap (get_elem? (contents (c ∷ cs))) {x = chunk_size * 0 + o} {y = o} (omega arith)
      ∙ get_elem?-window c.entries 0 c.count o (contents cs) lt
      ∙ ap (λ t. some (c.entries t)) (omega arith))
get_elem?-contents (d ∷ []) (suc r) o c f g lt = absurd (cc)
get_elem?-contents (d ∷ d' ∷ cs) (suc r) o c f g lt =
    let front = window d.entries 0 d.count in
    let rest = contents (d' ∷ cs) in
    let e : chunk_size * suc r + o ≡ length front + (chunk_size * r + o) =
      omega (arith, length-window d.entries 0 d.count, f.0) in
    rw e (
      get_elem?-append_right front rest (chunk_size * r + o)
      ∙ get_elem?-contents (d' ∷ cs) r o c f.1 g lt)

pub count_pos :
    (cs : List TraceChunk) (r : ℕ) (c : TraceChunk)
    → IsFilled cs
    → get_elem? cs r ≡ some c
    → 0 < c.count
count_pos [] r c f g = absurd (cc)
count_pos (d ∷ []) zero c f g = ground arith
count_pos (d ∷ []) (suc r) c f g = absurd (cc)
count_pos (d ∷ d' ∷ cs) zero c f g = ground arith
count_pos (d ∷ d' ∷ cs) (suc r) c f g = count_pos (d' ∷ cs) r c f.1 g

pub full_before_last :
    (cs : List TraceChunk) (r : ℕ) (c : TraceChunk)
    → IsFilled cs
    → get_elem? cs r ≡ some c
    → suc r < length cs
    → c.count ≡ chunk_size
full_before_last [] r c f g lt = absurd (cc)
full_before_last (d ∷ []) r c f g lt = absurd (omega arith)
full_before_last (d ∷ d' ∷ cs) zero c f g lt = ground arith
full_before_last (d ∷ d' ∷ cs) (suc r) c f g lt = full_before_last (d' ∷ cs) r c f.1 g (omega arith)

pub length-contents :
    (cs : List TraceChunk) (r : ℕ) (c : TraceChunk)
    → IsFilled cs
    → get_elem? cs r ≡ some c
    → suc r ≡ length cs
    → length (contents cs) ≡ chunk_size * r + c.count
length-contents [] r c f g e = absurd (cc)
length-contents (d ∷ []) zero c f g e =
    rw (some-injective d c g) (simp append-nil (omega (arith, length-window c.entries 0 c.count)))
length-contents (d ∷ []) (suc r) c f g e = absurd (cc)
length-contents (d ∷ d' ∷ cs) zero c f g e = absurd (omega arith)
length-contents (d ∷ d' ∷ cs) (suc r) c f g e =
    length-append (window d.entries 0 d.count) (contents (d' ∷ cs))
    ∙ omega (
      arith,
      f.0,
      length-window d.entries 0 d.count,
      length-contents (d' ∷ cs) r c f.1 g (omega arith),
    )

-- What `seek` finds: the end of the log, or the entry at the read position, with the position moved
-- past it once the loop has added one.
pub data Seeks (tb : TraceBuffer) : Type 0 where
  ends : seek tb ≡ at_end → length (contents tb.chunks) ≡ position tb → Seeks tb
  finds :
      (e : MemAccess) (tb' : TraceBuffer)
      → seek tb ≡ found e tb'
      → get_elem? (contents tb.chunks) (position tb) ≡ some e
      → tb'.chunks ≡ tb.chunks
      → position tb' ≡ position tb
      → IsValid tb'
      → IsValid (record tb' { read_offset = suc tb'.read_offset })
      → position (record tb' { read_offset = suc tb'.read_offset }) ≡ suc (position tb)
      → Seeks tb

-- The entry at offset `o` of chunk `r`, when that is where the read position stands.
pub seek_at :
    (tb : TraceBuffer) (r o : ℕ) (c : TraceChunk)
    → IsValid tb
    → get_elem? tb.chunks r ≡ some c
    → o < c.count
    → seek tb ≡ entry_at tb r o
    → position tb ≡ chunk_size * r + o
    → Seeks tb
unfolding entry_at
seek_at tb r o c v g lt s p =
    Seeks.finds (c.entries o) (record tb { read_chunk = some r; read_offset = o })
      (s ∙ ground (arith, g))
      (ap (get_elem? (contents tb.chunks)) p ∙ get_elem?-contents tb.chunks r o c v.filled g lt)
      refl (sym p)
      (record {
        filled = v.filled;
        writes_last = v.writes_last;
        reads_inside = inside o (omega arith);
        counted = v.counted;
      })
      (record {
        filled = v.filled;
        writes_last = v.writes_last;
        reads_inside = inside (suc o) lt;
        counted = v.counted;
      })
      (omega arith)
  where
    inside : (n : ℕ) → n ≤ c.count → ReadsInside tb.chunks (some r) n
    inside n le = (c, g, le)

pub no_reader_empty :
    (cs : List TraceChunk) (read : Option ℕ) (offset : ℕ)
    → ReadsInside cs read offset
    → read ≡ none
    → length (contents cs) ≡ 0
no_reader_empty [] read offset h n = refl
no_reader_empty (c ∷ cs) none offset h n = absurd h
no_reader_empty (c ∷ cs) (some r) offset h n = absurd (cc)

pub reader_chunk :
    (cs : List TraceChunk) (read : Option ℕ) (offset r : ℕ)
    → ReadsInside cs read offset
    → read ≡ some r
    → (c : TraceChunk) × (get_elem? cs r ≡ some c) × (offset ≤ c.count)
reader_chunk cs none offset r h n = absurd (cc)
reader_chunk cs (some r') offset r h n =
    (h.0, ap (get_elem? cs) (sym (some-injective r' r n)) ∙ h.1, h.2)

module _ (tb : TraceBuffer) (v : IsValid tb) (r : ℕ) (reads : tb.read_chunk ≡ some r)
    (c : TraceChunk) (g : get_elem? tb.chunks r ≡ some c) (le : tb.read_offset ≤ c.count) where
  pub here : position tb ≡ chunk_size * r + tb.read_offset
  here = ground (arith, reads)

  -- The chunk is read to its end: the next one, or the end of the data.
  pub Seeks-next : leb c.count tb.read_offset ≡ true → Seeks tb
  unfolding seek
  Seeks-next over = elim (Bool-cases (suc r == length tb.chunks)) [
    | inl last ↦
        Seeks.ends (ground (arith, reads, g, over, last))
          (length-contents tb.chunks r c v.filled g (ground arith) ∙ ground (arith, here))
    | inr more ↦
        let lt : suc r < length tb.chunks = ground (arith, lt_of_get_elem? tb.chunks r g) in
        let (d, g') = get_elem?_total tb.chunks (suc r) lt in
        seek_at tb (suc r) 0 d v g' (count_pos tb.chunks (suc r) d v.filled g')
          (ground (arith, reads, g, over, more))
          (ground (arith, here, full_before_last tb.chunks r c v.filled g lt))
  ]

  pub Seeks-inside : leb c.count tb.read_offset ≡ false → Seeks tb
  unfolding seek
  Seeks-inside under =
      seek_at tb r tb.read_offset c v g (ground arith) (ground (arith, reads, g, under)) here

pub Seeks-of_valid : (tb : TraceBuffer) → IsValid tb → Seeks tb
unfolding seek
Seeks-of_valid tb v = elim (Option-cases tb.read_chunk) [
  | inl n ↦
      Seeks.ends (ground (arith, n)) (
        no_reader_empty tb.chunks tb.read_chunk tb.read_offset v.reads_inside n ∙ ground (arith, n))
  | inr (r, n) ↦
      let (c, g, le) = reader_chunk tb.chunks tb.read_chunk tb.read_offset r v.reads_inside n in
      elim (Bool-cases (leb c.count tb.read_offset)) [
        | inl over ↦ Seeks-next tb v r n c g le over
        | inr under ↦ Seeks-inside tb v r n c g le under
      ]
]
