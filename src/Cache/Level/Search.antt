-- ===== src/Cache/Level/Search.antt =====
-- userspace/src/cache_simulator.c: what the searches through a set find.
use rpi_cpu_emulator_linux_d.Base.{ℕ, zero, suc, ◌+◌, ◌≤◌, ◌<◌, ◌≡◌, inl, inr, refl, ap, arith}
use rpi_cpu_emulator_linux_d.Base.{
  true, false, none, some, [], ◌∷◌, get_elem?, Bool-cases, ◌==◌, ◌&&◌, ltb,
}
use mathlib.Core.Option.{some-injective}
use rpi_cpu_emulator_linux_d.Cache.Level.{
  CacheLine, CacheSet, find_line, find_empty, lru_loop, lru_victim, uint32_max,
}

-- A line of the set that a search from index `i` has found at `k`.
pub record FoundAt (s : CacheSet) (i k : ℕ) : Type 0 where
  pub offset : ℕ
  pub line : CacheLine
  pub at_offset : k ≡ i + offset
  pub is_there : get_elem? s offset ≡ some line

abbrev pub FoundAt-suc :
    {s : CacheSet} {i k : ℕ} (l : CacheLine) → FoundAt s (suc i) k → FoundAt (l ∷ s) i k
FoundAt-suc l f = record {
  offset = suc f.offset;
  line = f.line;
  at_offset = omega (arith, f.at_offset);
  is_there = f.is_there;
}

pub find_line-FoundAt :
    (tag : ℕ) (s : CacheSet) (i k : ℕ)
    → find_line tag s i ≡ some k
    → (f : FoundAt s i k) × (f.line.valid ≡ true) × (f.line.tag ≡ tag)
unfolding find_line
find_line-FoundAt tag [] i k h = absurd (cc)
find_line-FoundAt tag (l ∷ ls) i k h = elim (Bool-cases (l.valid && (l.tag == tag))) [
  | inl hit ↦ (
    record { offset = 0; line = l; at_offset = ground (arith, hit); is_there = refl },
    ground (arith, hit),
    ground (arith, hit),
  )
  | inr miss ↦
      let (f, v, t) = find_line-FoundAt tag ls (suc i) k (ground (arith, miss)) in
      (FoundAt-suc l f, v, t)
]

pub find_empty-FoundAt :
    (s : CacheSet) (i k : ℕ)
    → find_empty s i ≡ some k
    → (f : FoundAt s i k) × (f.line.valid ≡ false)
unfolding find_empty
find_empty-FoundAt [] i k h = absurd (cc)
find_empty-FoundAt (l ∷ ls) i k h = elim (Bool-cases l.valid) [
  | inr free ↦
      (record { offset = 0; line = l; at_offset = ground (arith, free); is_there = refl }, free)
  | inl taken ↦
      let (f, v) = find_empty-FoundAt ls (suc i) k (ground (arith, taken)) in (FoundAt-suc l f, v)
]

-- Where the search for an empty slot fails, every line is valid.
pub find_empty-none :
    (s : CacheSet) (i j : ℕ) (l : CacheLine)
    → find_empty s i ≡ none
    → get_elem? s j ≡ some l
    → l.valid ≡ true
unfolding find_empty
find_empty-none [] i j l h g = absurd (cc)
find_empty-none (x ∷ s) i zero l h g = ground arith
find_empty-none (x ∷ s) i (suc j) l h g = find_empty-none s (suc i) j l (ground arith) g

-- A valid line with the tag is found.
pub find_line_total :
    (tag : ℕ) (s : CacheSet) (i j : ℕ) (l : CacheLine)
    → get_elem? s j ≡ some l
    → l.valid ≡ true
    → l.tag ≡ tag
    → (k : ℕ) × (find_line tag s i ≡ some k)
unfolding find_line
find_line_total tag [] i j l g v t = absurd (cc)
find_line_total tag (x ∷ s) i zero l g v t = (i, ground arith)
find_line_total tag (x ∷ s) i (suc j) l g v t =
    let (k, e) = find_line_total tag s (suc i) j l g v t in
    elim (Bool-cases (x.valid && (x.tag == tag))) [
      | inl hit ↦ (i, ground (arith, hit))
      | inr miss ↦ (k, ground (arith, miss, e))
    ]

-- The loop keeps its victim if no line is older than `min_time`, and else takes an oldest line.
pub data Oldest (s : CacheSet) (i min_time victim v : ℕ) : Type 0 where
  kept :
      v ≡ victim
      → ((j : ℕ) (l : CacheLine) → get_elem? s j ≡ some l → min_time ≤ l.last_used)
      → Oldest s i min_time victim v
  moved :
      (j : ℕ) (l : CacheLine)
      → v ≡ i + j
      → get_elem? s j ≡ some l
      → l.last_used < min_time
      → ((j' : ℕ) (l' : CacheLine) → get_elem? s j' ≡ some l' → l.last_used ≤ l'.last_used)
      → Oldest s i min_time victim v

older_line :
    (x : CacheLine) (s : CacheSet) (i min_time victim : ℕ) {v : ℕ}
    → x.last_used < min_time
    → Oldest s (suc i) x.last_used i v
    → Oldest (x ∷ s) i min_time victim v
older_line x s i min_time victim lt (Oldest.kept v all) =
    Oldest.moved 0 x (omega (arith, v)) refl lt elim [
      | zero ↦ λ l g. omega (arith, ap (λ y. y.last_used) (some-injective x l g))
      | suc j ↦ λ l g. all j l g
    ]
older_line x s i min_time victim lt (Oldest.moved j l v g lt' all) =
    Oldest.moved (suc j) l (omega (arith, v)) g (omega (arith, lt, lt')) elim [
      | zero ↦ λ l' g'. omega (arith, ap (λ y. y.last_used) (some-injective x l' g'), lt')
      | suc j' ↦ λ l' g'. all j' l' g'
    ]

newer_line :
    (x : CacheLine) (s : CacheSet) (i min_time victim : ℕ) {v : ℕ}
    → min_time ≤ x.last_used
    → Oldest s (suc i) min_time victim v
    → Oldest (x ∷ s) i min_time victim v
newer_line x s i min_time victim le (Oldest.kept v all) = Oldest.kept v elim [
  | zero ↦ λ l g. omega (arith, ap (λ y. y.last_used) (some-injective x l g), le)
  | suc j ↦ λ l g. all j l g
]
newer_line x s i min_time victim le (Oldest.moved j l v g lt all) =
    Oldest.moved (suc j) l (omega (arith, v)) g lt elim [
      | zero ↦ λ l' g'. omega (arith, ap (λ y. y.last_used) (some-injective x l' g'), lt, le)
      | suc j' ↦ λ l' g'. all j' l' g'
    ]

lru_loop-Oldest :
    (s : CacheSet) (i min_time victim : ℕ)
    → Oldest s i min_time victim (lru_loop s i min_time victim)
unfolding lru_loop
lru_loop-Oldest [] i min_time victim = Oldest.kept refl (λ j l g. absurd (cc))
lru_loop-Oldest (x ∷ s) i min_time victim = elim (Bool-cases (ltb x.last_used min_time)) [
  | inl older ↦
      let rest = lru_loop-Oldest s (suc i) x.last_used i in
      let step : x.last_used < min_time = ground (arith, older) in
      rw (older) (older_line x s i min_time victim step rest)
  | inr newer ↦
      let rest = lru_loop-Oldest s (suc i) min_time victim in
      let step : min_time ≤ x.last_used = ground (arith, newer) in
      rw (newer) (newer_line x s i min_time victim step rest)
]

-- For a set with lines, whose times fit in 32 bits, the victim of the LRU policy is one of its lines,
-- and no line was used longer ago.
pub lru_victim-Oldest :
    (s : CacheSet)
    → ¬ (s ≡ [])
    → ((j : ℕ) (l : CacheLine) → get_elem? s j ≡ some l → l.last_used ≤ uint32_max)
    → (f : FoundAt s 0 (lru_victim s)) × ((j : ℕ) (l : CacheLine)
        → get_elem? s j ≡ some l
        → f.line.last_used ≤ l.last_used)
unfolding lru_victim
lru_victim-Oldest [] some_line small = absurd (some_line refl)
lru_victim-Oldest (x ∷ s) some_line small = elim (lru_loop-Oldest (x ∷ s) 0 uint32_max 0) [
  | Oldest.kept v all ↦ (
    record { offset = 0; line = x; at_offset = v; is_there = refl },
    λ j l g. omega (arith, small 0 x refl, all j l g),
  )
  | Oldest.moved j l v g lt all ↦
      (record { offset = j; line = l; at_offset = v; is_there = g }, all)
]
