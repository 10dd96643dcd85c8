-- ===== src/Trace/Chunks.antt =====
-- trace_collector_driver/trace_collector_driver.c: the chunks of the buffer when their last one
-- changes, or a new one follows.
use rpi_cpu_emulator_linux_d.Base.{ℕ, zero, suc, ◌+◌, ◌≤◌, ◌<◌, ◌≡◌, refl, sym, ap, ◌∙◌, arith}
use rpi_cpu_emulator_linux_d.Base.{Option, none, some, List, [], ◌∷◌, ◌++◌}
use rpi_cpu_emulator_linux_d.Base.{
  length, get_elem?, set, length-append, length-set, lt_of_get_elem?, get_elem?-set_self,
  get_elem?-set_ne,
}
use native.Mathlib.Decide.{ℕ_discrete}
use mathlib.Core.Option.{some-injective}
use mathlib.Core.List.{append-nil, append_assoc}
use rpi_cpu_emulator_linux_d.Uapi.{MemAccess}
use rpi_cpu_emulator_linux_d.Trace.Buffer.{TraceChunk, chunk_size, update}
use rpi_cpu_emulator_linux_d.Trace.Log.{window, contents, IsFilled, last_of, ReadsInside}

pub window-update :
    (a : ℕ → MemAccess) (e : MemAccess) (i n j : ℕ)
    → i + n ≡ j
    → window (update a j e) i (suc n) ≡ window a i n ++ e ∷ []
unfolding update
window-update a e i zero j h = ground arith
window-update a e i (suc n) j h = ground (arith, window-update a e (suc i) n j (omega arith))

-- The chunk with one more entry.
abbrev pub more : MemAccess → TraceChunk → TraceChunk
more e c = record c { entries = update c.entries c.count e; count = suc c.count }

pub contents-append : (cs ds : List TraceChunk) → contents (cs ++ ds) ≡ contents cs ++ contents ds
contents-append [] ds = refl
contents-append (c ∷ cs) ds =
    ap (λ t. window c.entries 0 c.count ++ t) (contents-append cs ds)
    ∙ sym (append_assoc (window c.entries 0 c.count) (contents cs) (contents ds))

-- The last chunk gets the entry.
pub contents-set_last :
    (e : MemAccess) (cs : List TraceChunk) (w : ℕ) (c : TraceChunk)
    → suc w ≡ length cs
    → get_elem? cs w ≡ some c
    → contents (set cs w (more e c)) ≡ contents cs ++ e ∷ []
contents-set_last e [] w c h g = absurd (omega arith)
contents-set_last e (d ∷ []) zero c h g =
    rw (some-injective d c g)
      (simp append-nil (window-update c.entries e 0 c.count c.count (omega arith)))
contents-set_last e (d ∷ d' ∷ cs) zero c h g = absurd (omega arith)
contents-set_last e (d ∷ cs) (suc w) c h g =
    rw (contents-set_last e cs w c (omega arith) g)
      (sym (append_assoc (window d.entries 0 d.count) (contents cs) (e ∷ [])))

pub IsFilled-set_last :
    (e : MemAccess) (cs : List TraceChunk) (w : ℕ) (c : TraceChunk)
    → suc w ≡ length cs
    → get_elem? cs w ≡ some c
    → c.count < chunk_size
    → IsFilled cs
    → IsFilled (set cs w (more e c))
IsFilled-set_last e [] w c h g lt f = absurd (omega arith)
IsFilled-set_last e (d ∷ []) zero c h g lt f = omega arith
IsFilled-set_last e (d ∷ []) (suc w) c h g lt f = absurd (omega arith)
IsFilled-set_last e (d ∷ d' ∷ cs) zero c h g lt f = absurd (omega arith)
IsFilled-set_last e (d ∷ d' ∷ cs) (suc zero) c h g lt f =
    (f.0, IsFilled-set_last e (d' ∷ cs) zero c (omega arith) g lt f.1)
IsFilled-set_last e (d ∷ d' ∷ cs) (suc (suc w)) c h g lt f =
    (f.0, IsFilled-set_last e (d' ∷ cs) (suc w) c (omega arith) g lt f.1)

pub last_of-set :
    (cs : List TraceChunk) (w : ℕ) (v : TraceChunk) → last_of (set cs w v) ≡ last_of cs
last_of-set [] w v = refl
last_of-set (c ∷ cs) zero v = refl
last_of-set (c ∷ cs) (suc w) v = ap some (length-set cs w v)

pub last_of-length : (cs : List TraceChunk) (w : ℕ) → last_of cs ≡ some w → suc w ≡ length cs
last_of-length [] w h = absurd (cc)
last_of-length (c ∷ cs) w h = ap suc (sym (some-injective (length cs) w h))

-- What stays readable when the last chunk grows.
pub reads-set_last :
    (e : MemAccess) (cs : List TraceChunk) (w : ℕ) (c : TraceChunk) (read : Option ℕ) (offset : ℕ)
    → get_elem? cs w ≡ some c
    → ReadsInside cs read offset
    → ReadsInside (set cs w (more e c)) read offset
reads-set_last e [] w c none offset g h = h
reads-set_last e (d ∷ cs) w c none offset g h = absurd h
reads-set_last e cs w c (some r) offset g h = elim (ℕ_discrete w r) [
  | yes p ↦ (
    more e c,
    ap (get_elem? (set cs w (more e c))) (sym p)
        ∙ get_elem?-set_self cs w (more e c) (lt_of_get_elem? cs w g),
    let same : h.0 ≡ c = some-injective h.0 c (sym h.1 ∙ ap (get_elem? cs) (sym p) ∙ g) in
        let fits : offset ≤ c.count = rw same at (h.2) in omega arith,
  )
  | no n ↦ (h.0, get_elem?-set_ne cs (more e c) n ∙ h.1, h.2)
]

-- A new chunk at the tail.
pub get_elem?-snoc :
    (cs : List TraceChunk) (x : TraceChunk) → get_elem? (cs ++ x ∷ []) (length cs) ≡ some x
get_elem?-snoc [] x = refl
get_elem?-snoc (c ∷ cs) x = get_elem?-snoc cs x

pub set-snoc :
    (cs : List TraceChunk) (x y : TraceChunk) → set (cs ++ x ∷ []) (length cs) y ≡ cs ++ y ∷ []
set-snoc [] x y = refl
set-snoc (c ∷ cs) x y = ap (λ t. c ∷ t) (set-snoc cs x y)

pub get_elem?-append :
    (cs ds : List TraceChunk) (r : ℕ) (c : TraceChunk)
    → get_elem? cs r ≡ some c
    → get_elem? (cs ++ ds) r ≡ some c
get_elem?-append [] ds r c h = absurd (cc)
get_elem?-append (d ∷ cs) ds zero c h = h
get_elem?-append (d ∷ cs) ds (suc r) c h = get_elem?-append cs ds r c h

pub last_of-snoc :
    (cs : List TraceChunk) (x : TraceChunk) → last_of (cs ++ x ∷ []) ≡ some (length cs)
last_of-snoc [] x = refl
last_of-snoc (c ∷ cs) x = ap some (length-append cs (x ∷ []) ∙ omega arith)

-- The last chunk is full.
abbrev pub LastFull : List TraceChunk → Type 0
LastFull cs =
    (w : ℕ) (c : TraceChunk) → suc w ≡ length cs → get_elem? cs w ≡ some c → c.count ≡ chunk_size

pub IsFilled-snoc :
    (cs : List TraceChunk) (x : TraceChunk)
    → IsFilled cs
    → LastFull cs
    → 0 < x.count
    → x.count ≤ chunk_size
    → IsFilled (cs ++ x ∷ [])
IsFilled-snoc [] x f full p q = (p, q)
IsFilled-snoc (c ∷ []) x f full p q = (full 0 c refl refl, (p, q))
IsFilled-snoc (c ∷ d ∷ cs) x f full p q =
    (f.0, IsFilled-snoc (d ∷ cs) x f.1 (λ w y h g. full (suc w) y (ap suc h) g) p q)
