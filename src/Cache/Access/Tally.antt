-- ===== src/Cache/Access/Tally.antt =====
-- userspace/src/cache_simulator.c: the counters that the loop of `run_cache_sim` leaves.
use rpi_cpu_emulator_linux_d.Base.{ℕ, suc, ◌+◌, ◌≤◌, ◌<◌, ◌≡◌, ◌^◌, ◌⊎◌, inl, inr, refl, arith}
use rpi_cpu_emulator_linux_d.Base.{
  true, false, ◌&&◌, some, Option, List, [], ◌∷◌, length, Bool-cases, ltb,
}
use rpi_cpu_emulator_linux_d.Uapi.{MemAccess}
use rpi_cpu_emulator_linux_d.Cache.Level.{ReplacementPolicy, CacheLevel}
use rpi_cpu_emulator_linux_d.Cache.Access.{Levels, missed, sim_access, sim_loop}
use rpi_cpu_emulator_linux_d.Cache.Level.Valid.{IsValid}
use rpi_cpu_emulator_linux_d.Cache.Access.Level.{IsCounted, cache_access-IsCounted}

-- The levels in use are valid.
pub record AreValid (num_lvls : ℕ) (s : Levels) : Type 0 where
  pub valid1 : IsValid s.l1
  pub valid2 : 1 < num_lvls → IsValid s.l2
  pub valid3 : 2 < num_lvls → IsValid s.l3

-- `n` more accesses keep the counters of the levels in use within 32 bits.
pub record HaveRoom (n num_lvls : ℕ) (s : Levels) : Type 0 where
  pub room1 : s.l1.hits + s.l1.misses + n < 2 ^ 32
  pub room2 : 1 < num_lvls → s.l2.hits + s.l2.misses + n < 2 ^ 32
  pub room3 : 2 < num_lvls → s.l3.hits + s.l3.misses + n < 2 ^ 32

-- How the counters of `n` accesses to the hierarchy add up.
pub record IsTallied (n num_lvls : ℕ) (s s' : Levels) : Type 0 where
  pub are_valid : AreValid num_lvls s'
  pub level1 : s'.l1.hits + s'.l1.misses ≡ s.l1.hits + s.l1.misses + n
  pub level2 :
      1 < num_lvls
      → s'.l2.hits + s'.l2.misses + s.l1.misses ≡ s.l2.hits + s.l2.misses + s'.l1.misses
  pub level3 :
      2 < num_lvls
      → s'.l3.hits + s'.l3.misses + s.l2.misses ≡ s.l3.hits + s.l3.misses + s'.l2.misses
  pub at_most2 : s'.l2.hits + s'.l2.misses ≤ s.l2.hits + s.l2.misses + n
  pub at_most3 : s'.l3.hits + s'.l3.misses ≤ s.l3.hits + s.l3.misses + n

-- The comparison of the hit counters tells a miss.
missed_iff :
    {line_size num_sets address : ℕ} {c : CacheLevel} {result : Option (CacheLevel × ℕ)}
    (a : IsCounted line_size num_sets address c result)
    → c.hits < 2 ^ 32
    → ((missed c a.after ≡ true) × (a.after.hits ≡ c.hits) × (a.after.misses ≡ c.misses + 1))
      ⊎ ((missed c a.after ≡ false) × (a.after.hits ≡ c.hits + 1) × (a.after.misses ≡ c.misses))
unfolding missed
missed_iff a fits = elim a.counts [
  | inl (_, h, m) ↦ inr (ground (arith, h, fits), h, m)
  | inr (_, h, m) ↦ inl (ground (arith, h, fits), h, m)
]

sim_access-IsTallied :
    (policy : ReplacementPolicy) (num_lvls : ℕ) (s : Levels) (t : MemAccess)
    (future : List MemAccess) (idx : ℕ)
    → AreValid num_lvls s
    → HaveRoom 1 num_lvls s
    → (s' : Levels) × (sim_access policy num_lvls s t future idx ≡ some s')
      × IsTallied 1 num_lvls s s'
unfolding sim_access
sim_access-IsTallied policy num_lvls s t future idx ok room =
    let a1 =
      cache_access-IsCounted policy s.global_timer s.l1 t future idx ok.valid1
        (omega (arith, room.room1)) in
    let how1 = missed_iff a1 (omega (arith, room.room1)) in
    elim (Bool-cases (ltb 1 num_lvls && missed s.l1 a1.after)) [
      | inr stop ↦ (
        record { l1 = a1.after; l2 = s.l2; l3 = s.l3; global_timer = a1.time },
        rw (sim_access, a1.returns, stop) refl,
        record {
          are_valid = record { valid1 = a1.is_valid; valid2 = ok.valid2; valid3 = ok.valid3 };
          level1 = ground (arith, how1);
          level2 = λ two. ground (arith, how1, stop, two);
          level3 = λ three. omega arith;
          at_most2 = omega arith;
          at_most3 = omega arith;
        },
      )
      | inl go ↦
          let two : 1 < num_lvls = ground (arith, go) in
          let a2 =
            cache_access-IsCounted policy a1.time s.l2 t future idx (ok.valid2 two)
              (omega (arith, room.room2 two)) in
          let how2 = missed_iff a2 (omega (arith, room.room2 two)) in
          elim (Bool-cases (ltb 2 num_lvls && missed s.l2 a2.after)) [
            | inr stop ↦ (
              record { l1 = a1.after; l2 = a2.after; l3 = s.l3; global_timer = a2.time },
              rw (sim_access, a1.returns, go, a2.returns, stop) refl,
              record {
                are_valid = record {
                  valid1 = a1.is_valid;
                  valid2 = λ _. a2.is_valid;
                  valid3 = ok.valid3;
                };
                level1 = ground (arith, how1);
                level2 = λ _. ground (arith, how1, how2, go);
                level3 = λ three. ground (arith, how2, stop, three);
                at_most2 = ground (arith, how2);
                at_most3 = omega arith;
              },
            )
            | inl go_on ↦
                let three : 2 < num_lvls = ground (arith, go_on) in
                let a3 =
                  cache_access-IsCounted policy a2.time s.l3 t future idx (ok.valid3 three)
                    (omega (arith, room.room3 three)) in
                (
                  record { l1 = a1.after; l2 = a2.after; l3 = a3.after; global_timer = a3.time },
                  rw (sim_access, a1.returns, go, a2.returns, go_on, a3.returns) refl,
                  record {
                    are_valid = record {
                      valid1 = a1.is_valid;
                      valid2 = λ _. a2.is_valid;
                      valid3 = λ _. a3.is_valid;
                    };
                    level1 = ground (arith, how1);
                    level2 = λ _. ground (arith, how1, how2, go);
                    level3 = λ _. ground (arith, how2, a3.counts, go_on);
                    at_most2 = ground (arith, how2);
                    at_most3 = ground (arith, a3.counts);
                  },
                )
          ]
    ]

-- The tallies of two runs, one behind the other.
IsTallied-then :
    {n num_lvls : ℕ} {s s' s'' : Levels}
    → IsTallied 1 num_lvls s s'
    → IsTallied n num_lvls s' s''
    → IsTallied (suc n) num_lvls s s''
IsTallied-then a b = record {
  are_valid = b.are_valid;
  level1 = omega (arith, a.level1, b.level1);
  level2 = λ two. omega (arith, a.level2 two, b.level2 two);
  level3 = λ three. omega (arith, a.level3 three, b.level3 three);
  at_most2 = omega (arith, a.at_most2, b.at_most2);
  at_most3 = omega (arith, a.at_most3, b.at_most3);
}

-- Where the levels in use are valid and the length of the trace added to their counters stays below
-- 2 ^ 32, the loop of the simulation succeeds and keeps them valid. Each access counts in L1; L2, if it
-- is in use, counts an access for each miss of L1, and L3 one for each miss of L2.
pub sim_loop-IsTallied :
    (policy : ReplacementPolicy) (num_lvls : ℕ) (ts : List MemAccess) (idx : ℕ) (s : Levels)
    → AreValid num_lvls s
    → HaveRoom (length ts) num_lvls s
    → (s' : Levels) × (sim_loop policy num_lvls ts idx s ≡ some s')
      × IsTallied (length ts) num_lvls s s'
unfolding sim_loop
sim_loop-IsTallied policy num_lvls [] idx s ok room = (
  s,
  refl,
  record {
    are_valid = ok;
    level1 = omega arith;
    level2 = λ _. omega arith;
    level3 = λ _. omega arith;
    at_most2 = omega arith;
    at_most3 = omega arith;
  },
)
sim_loop-IsTallied policy num_lvls (t ∷ ts) idx s ok room =
    let one : HaveRoom 1 num_lvls s = record {
      room1 = omega (arith, room.room1);
      room2 = λ two. omega (arith, room.room2 two);
      room3 = λ three. omega (arith, room.room3 three);
    } in
    let (s', e, tally) = sim_access-IsTallied policy num_lvls s t ts idx ok one in
    let left : HaveRoom (length ts) num_lvls s' = record {
      room1 = omega (arith, room.room1, tally.level1);
      room2 = λ two. omega (arith, room.room2 two, tally.at_most2);
      room3 = λ three. omega (arith, room.room3 three, tally.at_most3);
    } in
    let (s'', e', tally') =
      sim_loop-IsTallied policy num_lvls ts (suc idx) s' tally.are_valid left in
    (s'', rw (sim_loop, e) e', IsTallied-then tally tally')
