-- ===== src/Cache/Optimal/Victim.antt =====
-- userspace/src/cache_simulator.c: the line that `find_optimal_victim` chooses.
use rpi_cpu_emulator_linux_d.Base.{
  ℕ, zero, suc, ◌≤◌, ◌<◌, ◌≡◌, ◌⊎◌, inl, inr, refl, sym, ap, ◌∙◌, arith,
}
use rpi_cpu_emulator_linux_d.Base.{
  none, some, List, [], ◌∷◌, get_elem?, Bool-cases, Option-cases, ltb,
}
use mathlib.Core.Option.{some-injective}
use rpi_cpu_emulator_linux_d.Uapi.{MemAccess}
use rpi_cpu_emulator_linux_d.Cache.Level.{CacheLine, CacheSet}
use rpi_cpu_emulator_linux_d.Cache.Geometry.{line_tag}
use rpi_cpu_emulator_linux_d.Cache.Level.Search.{FoundAt, FoundAt-suc}
use rpi_cpu_emulator_linux_d.Cache.Optimal.{next_use, optimal_loop, find_optimal_victim}

-- The choice `v` of the loop from line `i` on: a line that the trace does not use again, or the one
-- so far, if no line is used later than `furthest`, or a line that no line is used later than.
pub data Furthest (tag_of : ℕ → ℕ) (future : List MemAccess) (first : ℕ) (s : CacheSet)
    (i furthest victim v : ℕ) : Type 0 where
  unused :
      (f : FoundAt s i v)
      → next_use tag_of f.line.tag future first ≡ none
      → Furthest tag_of future first s i furthest victim v
  kept :
      v ≡ victim
      → ((j : ℕ) (l : CacheLine)
          → get_elem? s j ≡ some l
          → (n : ℕ) × (next_use tag_of l.tag future first ≡ some n) × (n ≤ furthest))
      → Furthest tag_of future first s i furthest victim v
  moved :
      (f : FoundAt s i v) (m : ℕ)
      → next_use tag_of f.line.tag future first ≡ some m
      → furthest < m
      → ((j : ℕ) (l : CacheLine)
          → get_elem? s j ≡ some l
          → (n : ℕ) × (next_use tag_of l.tag future first ≡ some n) × (n ≤ m))
      → Furthest tag_of future first s i furthest victim v

module _ (tag_of : ℕ → ℕ) (future : List MemAccess) (first : ℕ) where
  later :
      (x : CacheLine) (s : CacheSet) (i furthest victim n : ℕ) {v : ℕ}
      → next_use tag_of x.tag future first ≡ some n
      → furthest < n
      → Furthest tag_of future first s (suc i) n i v
      → Furthest tag_of future first (x ∷ s) i furthest victim v
  later x s i furthest victim n e lt (Furthest.unused f u) = Furthest.unused (FoundAt-suc x f) u
  later x s i furthest victim n e lt (Furthest.kept v all) =
      Furthest.moved
        (record { offset = 0; line = x; at_offset = omega (arith, v); is_there = refl }) n e lt
        (elim [
          | zero ↦ λ l g. (
            n,
            ap (λ y. next_use tag_of y.tag future first) (sym (some-injective x l g)) ∙ e,
            omega arith,
          )
          | suc j ↦ λ l g. all j l g
        ])
  later x s i furthest victim n e lt (Furthest.moved f m u lt' all) =
      Furthest.moved (FoundAt-suc x f) m u (omega (arith, lt, lt')) (elim [
        | zero ↦ λ l g. (
          n,
          ap (λ y. next_use tag_of y.tag future first) (sym (some-injective x l g)) ∙ e,
          omega (arith, lt'),
        )
        | suc j ↦ λ l g. all j l g
      ])

  sooner :
      (x : CacheLine) (s : CacheSet) (i furthest victim n : ℕ) {v : ℕ}
      → next_use tag_of x.tag future first ≡ some n
      → n ≤ furthest
      → Furthest tag_of future first s (suc i) furthest victim v
      → Furthest tag_of future first (x ∷ s) i furthest victim v
  sooner x s i furthest victim n e le (Furthest.unused f u) = Furthest.unused (FoundAt-suc x f) u
  sooner x s i furthest victim n e le (Furthest.kept v all) = Furthest.kept v (elim [
    | zero ↦ λ l g.
        (n, ap (λ y. next_use tag_of y.tag future first) (sym (some-injective x l g)) ∙ e, le)
    | suc j ↦ λ l g. all j l g
  ])
  sooner x s i furthest victim n e le (Furthest.moved f m u lt all) =
      Furthest.moved (FoundAt-suc x f) m u lt (elim [
        | zero ↦ λ l g. (
          n,
          ap (λ y. next_use tag_of y.tag future first) (sym (some-injective x l g)) ∙ e,
          omega (arith, le, lt),
        )
        | suc j ↦ λ l g. all j l g
      ])

  optimal_loop-Furthest :
      (s : CacheSet) (i furthest victim : ℕ)
      → Furthest tag_of future first s i furthest victim
          (optimal_loop tag_of future first s i furthest victim)
  unfolding optimal_loop
  optimal_loop-Furthest [] i furthest victim = Furthest.kept refl (λ j l g. absurd (cc))
  optimal_loop-Furthest (x ∷ s) i furthest victim =
      elim (Option-cases (next_use tag_of x.tag future first)) [
        | inl e ↦
            rw (optimal_loop, e)
              (Furthest.unused
                (record { offset = 0; line = x; at_offset = omega arith; is_there = refl }) e)
        | inr (n, e) ↦ elim (Bool-cases (ltb furthest n)) [
          | inl lt ↦
              let rest = optimal_loop-Furthest s (suc i) n i in
              let step : furthest < n = ground (arith, lt) in
              rw (optimal_loop, e, lt) (later x s i furthest victim n e step rest)
          | inr le ↦
              let rest = optimal_loop-Furthest s (suc i) furthest victim in
              let step : n ≤ furthest = ground (arith, le) in
              rw (optimal_loop, e, le) (sooner x s i furthest victim n e step rest)
        ]
      ]

pub find_optimal_victim-Furthest :
    (line_size num_sets : ℕ) (s : CacheSet) (future : List MemAccess) (current_idx : ℕ)
    → ¬ (s ≡ [])
    → (f : FoundAt s 0 (find_optimal_victim line_size num_sets s future current_idx)) × ((next_use
            (line_tag line_size num_sets)
            f.line.tag
            future
            (suc current_idx)
          ≡ none)
        ⊎ ((m : ℕ) × (next_use (line_tag line_size num_sets) f.line.tag future (suc current_idx)
              ≡ some m)
            × ((j : ℕ) (l : CacheLine)
                → get_elem? s j ≡ some l
                → (n : ℕ) × (next_use (line_tag line_size num_sets) l.tag future (suc current_idx)
                    ≡ some n)
                  × (n ≤ m))))
unfolding find_optimal_victim
find_optimal_victim-Furthest line_size num_sets [] future idx some_line = absurd (some_line refl)
find_optimal_victim-Furthest line_size num_sets (x ∷ s) future idx some_line =
    elim (optimal_loop-Furthest (line_tag line_size num_sets) future (suc idx) (x ∷ s) 0 0 0) [
      | Furthest.unused f u ↦ (f, inl u)
      | Furthest.kept v all ↦
          let (m, e, le) = all 0 x refl in
          (
            record { offset = 0; line = x; at_offset = v; is_there = refl },
            inr (m, e, λ j l g. let (n, e', le') = all j l g in (n, e', omega (arith, le'))),
          )
      | Furthest.moved f m u lt all ↦ (f, inr (m, u, all))
    ]
