-- ===== src/Cache/Run/Counts.antt =====
-- userspace/src/cache_simulator.c: the counts that `run_cache_sim` prints.
use rpi_cpu_emulator_linux_d.Base.{ℕ, suc, ◌+◌, ◌^◌, ◌≤◌, ◌<◌, ◌≡◌, inl, inr, refl, ap, ◌∙◌, arith}
use rpi_cpu_emulator_linux_d.Base.{
  Bool, true, false, some, Bool-cases, List, [], ◌∷◌, ◌==◌, ltb, lt→ltb, if◌then◌else◌, u64, sub64,
  length,
}
use rpi_cpu_emulator_linux_d.Uapi.{MemAccess}
use rpi_cpu_emulator_linux_d.Cache.Level.{CacheLevel}
use rpi_cpu_emulator_linux_d.Cache.Access.{Levels}
use rpi_cpu_emulator_linux_d.Cache.Level.Valid as Valid
use rpi_cpu_emulator_linux_d.Cache.Access.Tally.{AreValid, HaveRoom, IsTallied, sim_loop-IsTallied}
use rpi_cpu_emulator_linux_d.Cache.Config.{Config}
use rpi_cpu_emulator_linux_d.Cache.Config.Sizes.{IsBuilt}
use rpi_cpu_emulator_linux_d.Cache.Config.Accepts.{AreBuilt}
use rpi_cpu_emulator_linux_d.Cache.Run.{
  Report, reported, init_if, init_levels, count_reads, ram_visits, simulate,
}

-- How many of the accesses are reads.
abbrev pub reads_in : List MemAccess → ℕ
reads_in [] = 0
reads_in (t ∷ ts) = (if t.type == 0 then 1 else 0) + reads_in ts

reads_in-le : (ts : List MemAccess) → reads_in ts ≤ length ts
reads_in-le [] = omega arith
reads_in-le (t ∷ ts) = ground (arith, reads_in-le ts)

count_reads_lem :
    (ts : List MemAccess) (i n : ℕ)
    → i + length ts < 2 ^ 31
    → n + length ts < 2 ^ 64
    → count_reads ts i n ≡ some (n + reads_in ts)
unfolding count_reads
count_reads_lem [] i n hi hn = ap some (omega arith)
count_reads_lem (t ∷ ts) i n hi hn = elim (Bool-cases (t.type == 0)) [
  | inl is_read ↦
      let ih = count_reads_lem ts (suc i) (u64 (n + 1)) (omega (arith, hi)) (omega (arith, hn)) in
      ground (arith, is_read, ih, hi, hn)
  | inr is_write ↦
      let ih = count_reads_lem ts (suc i) n (omega (arith, hi)) (omega (arith, hn)) in
      ground (arith, is_write, ih, hi, hn)
]

-- The hits of the levels in use.
abbrev pub hits_in_use : ℕ → Levels → ℕ
hits_in_use n s =
    s.l1.hits + ((if ltb 1 n then s.l2.hits else 0) + (if ltb 2 n then s.l3.hits else 0))

-- The levels after `cache_init`.
record AreFresh (n : ℕ) (s : Levels) : Type 0 where
  are_valid : AreValid n s
  fresh1 : (s.l1.hits ≡ 0) × (s.l1.misses ≡ 0)
  fresh2 : 1 < n → (s.l2.hits ≡ 0) × (s.l2.misses ≡ 0)
  fresh3 : 2 < n → (s.l3.hits ≡ 0) × (s.l3.misses ≡ 0)

init_if-IsBuilt :
    (used : Bool) (lvl_size line_size assoc : ℕ) (old : CacheLevel)
    → (used ≡ true → IsBuilt lvl_size line_size assoc)
    → (l : CacheLevel) × (init_if used lvl_size line_size assoc old ≡ some l)
      × (used ≡ true → Valid.IsValid l × (l.hits ≡ 0) × (l.misses ≡ 0))
unfolding init_if
init_if-IsBuilt true s l a old b =
    let x = b refl in (x.level, x.built, λ _. (x.is_valid, x.no_hits, x.no_misses))
init_if-IsBuilt false s l a old b = (old, refl, λ u. absurd (cc))

init_levels-AreFresh :
    (c : Config) (stack : Levels)
    → AreBuilt c
    → (s : Levels) × (init_levels c stack ≡ some s) × AreFresh c.num_lvls s
unfolding init_levels
init_levels-AreFresh c stack b =
    let n = c.num_lvls in
    let (l2, e2, f2) =
      init_if-IsBuilt (ltb 1 n) c.lvl_size2 c.line_size c.assoc2 stack.l2
        (λ u. b.level2 (ground (arith, u))) in
    let (l3, e3, f3) =
      init_if-IsBuilt (ltb 2 n) c.lvl_size3 c.line_size c.assoc3 stack.l3
        (λ u. b.level3 (ground (arith, u))) in
    (
      record { l1 = b.level1.level; l2 = l2; l3 = l3; global_timer = stack.global_timer },
      rw (init_levels, b.level1.built, e2, e3) refl,
      record {
        are_valid = record {
          valid1 = b.level1.is_valid;
          valid2 = λ two. (f2 (lt→ltb 1 n two)).0;
          valid3 = λ three. (f3 (lt→ltb 2 n three)).0;
        };
        fresh1 = (b.level1.no_hits, b.level1.no_misses);
        fresh2 = λ two. let f = f2 (lt→ltb 1 n two) in (f.1, f.2);
        fresh3 = λ three. let f = f3 (lt→ltb 2 n three) in (f.1, f.2);
      },
    )

-- What the printed counts say of a trace.
pub record IsReport (num_lvls : ℕ) (traces : List MemAccess) (r : Report) : Type 0 where
  pub total : r.total_traces ≡ length traces
  pub reads : r.num_reads ≡ reads_in traces
  pub writes : r.num_reads + r.num_writes ≡ length traces
  pub adds_up : hits_in_use num_lvls r.levels + r.ram_visits ≡ length traces

-- Hits of the levels in use, and accesses to memory.
tally_adds_up :
    (n k : ℕ) (s s' : Levels)
    → 1 ≤ n
    → n ≤ 3
    → AreFresh n s
    → IsTallied k n s s'
    → hits_in_use n s' + ram_visits n s' ≡ k
unfolding ram_visits
tally_adds_up n k s s' lo hi f t = elim (Bool-cases (n == 1)) [
  | inl one ↦ ground (arith, one, t.level1, f.fresh1)
  | inr more ↦ elim (Bool-cases (n == 2)) [
    | inl two ↦
        ground (arith, two, t.level1, f.fresh1, f.fresh2 (ground arith), t.level2 (ground arith))
    | inr three ↦ ground (
      arith,
      more,
      three,
      t.level1,
      f.fresh1,
      f.fresh2 (ground arith),
      f.fresh3 (ground arith),
      t.level2 (ground arith),
      t.level3 (ground arith),
    )
  ]
]

pub simulate-IsReport :
    (c : Config) (stack : Levels) (traces : List MemAccess)
    → AreBuilt c
    → length traces < 2 ^ 31
    → (r : Report) × (simulate c stack traces ≡ some (reported r)) × IsReport c.num_lvls traces r
unfolding simulate
simulate-IsReport c stack traces b small =
    let (s, e, f) = init_levels-AreFresh c stack b in
    let room : HaveRoom (length traces) c.num_lvls s = record {
      room1 = omega (arith, f.fresh1, small);
      room2 = λ two. let g = f.fresh2 two in omega (arith, g, small);
      room3 = λ three. let g = f.fresh3 three in omega (arith, g, small);
    } in
    let (s', ran, t) = sim_loop-IsTallied c.policy c.num_lvls traces 0 s f.are_valid room in
    let counted : count_reads traces 0 0 ≡ some (reads_in traces) =
      count_reads_lem traces 0 0 (omega (arith, small)) (omega (arith, small))
      ∙ ap some (omega arith) in
    (
      record {
        total_traces = length traces;
        num_reads = reads_in traces;
        num_writes = sub64 (length traces) (reads_in traces);
        levels = s';
        ram_visits = ram_visits c.num_lvls s';
      },
      rw (simulate, e, ran, counted) refl,
      record {
        total = refl;
        reads = refl;
        writes = ground (arith, reads_in-le traces, small);
        adds_up = tally_adds_up c.num_lvls (length traces) s s' b.some_level b.at_most_three f t;
      },
    )
