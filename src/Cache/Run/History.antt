-- ===== src/Cache/Run/History.antt =====
-- userspace/src/cache_simulator.c: a run of the simulator after any use of the trace device.
use rpi_cpu_emulator_linux_d.Base.{ℕ, ◌+◌, ◌-◌, ◌^◌, ◌<◌, ◌≡◌, inl, inr, refl, sym, ap, ◌∙◌, arith}
use rpi_cpu_emulator_linux_d.Base.{
  true, ◌&&◌, Option, some, Bool-cases, List, ◌==◌, length, take, drop, length-take, length-drop,
}
use mathlib.Core.Path.{subst}
use rpi_cpu_emulator_linux_d.Uapi.{MemAccess}
use rpi_cpu_emulator_linux_d.Trace.Buffer.{TraceBuffer}
use rpi_cpu_emulator_linux_d.Trace.History.{
  Call, History, run_calls, start, length-returned, run_calls-from_start,
}
use rpi_cpu_emulator_linux_d.Trace.Log.{contents, position, IsValid}
use rpi_cpu_emulator_linux_d.Cache.Access.{Levels}
use rpi_cpu_emulator_linux_d.Cache.Load.{LoadEnv}
use rpi_cpu_emulator_linux_d.Cache.Load.Prefix.{load_traces_prefix}
use rpi_cpu_emulator_linux_d.Cache.Load.Batch.{unread}
use rpi_cpu_emulator_linux_d.Cache.Config.{Config, configure_cache_sim_parameters}
use rpi_cpu_emulator_linux_d.Cache.Config.Accepts.{configure-AreBuilt}
use rpi_cpu_emulator_linux_d.Cache.Run.{Report, Outcome, no_traces, reported, run_cache_sim}
use rpi_cpu_emulator_linux_d.Cache.Run.Counts.{IsReport, simulate-IsReport}

-- Every call of the system succeeds.
pub record Works (e : LoadEnv) : Type 0 where
  pub opens : e.malloc_ok && e.open_ok ≡ true
  pub grows : (b : ℕ) → e.realloc_ok b ≡ true
  pub copies_all : (k i : ℕ) → e.copies k i ≡ true

-- What the outcome says of the accesses that wait in the device.
pub data Explains (e : LoadEnv) (num_lvls : ℕ) (waiting : List MemAccess) : Outcome → Type 0 where
  nothing : (Works e → length waiting ≡ 0) → Explains e num_lvls waiting no_traces
  of_prefix :
      (k : ℕ) (r : Report)
      → 0 < k
      → r.total_traces ≡ k
      → IsReport num_lvls (take k waiting) r
      → (Works e → k ≡ length waiting)
      → Explains e num_lvls waiting (reported r)

run_cache_sim-Explains :
    (e : LoadEnv) (fuel : ℕ) (old c : Config) (stack : Levels) (answers rest : List (Option ℕ))
    (tb : TraceBuffer)
    → IsValid tb
    → length (contents tb.chunks) < 2 ^ 31
    → length (contents tb.chunks) < position tb + fuel
    → configure_cache_sim_parameters old answers ≡ some (c, rest)
    → (o : Outcome) × (run_cache_sim e fuel old stack answers tb ≡ some o)
      × Explains e c.num_lvls (unread tb) o
unfolding run_cache_sim
run_cache_sim-Explains e fuel old c stack answers rest tb v small enough asked =
    let left : length (unread tb) ≡ length (contents tb.chunks) - position tb =
      length-drop (position tb) (contents tb.chunks) in
    elim (load_traces_prefix e fuel tb v (omega (arith, small)) enough) [
      | inl (loaded, bad) ↦ (
        no_traces,
        rw (run_cache_sim, asked, loaded) refl,
        Explains.nothing (λ w. absurd (let good = w.opens in cc)),
      )
      | inr (l, loaded, good, f) ↦
          let size : length l.traces ≡ f.count =
            ap length f.in_order ∙ length-take f.count (unread tb) ∙ omega (arith, f.there, left) in
          let all_of : Works e → f.count ≡ length (unread tb) =
            λ w. omega (arith, f.complete w.grows w.copies_all, left) in
          elim (Bool-cases (length l.traces == 0)) [
            | inl no_trace ↦ (
              no_traces,
              rw (run_cache_sim, asked, loaded, no_trace) refl,
              Explains.nothing (λ w. ground (arith, all_of w, size, no_trace)),
            )
            | inr some_trace ↦
                let built = configure-AreBuilt old c answers rest asked in
                let (r, ran, report) =
                  simulate-IsReport c stack l.traces built (omega (arith, size, f.there, small)) in
                (
                  reported r,
                  rw (run_cache_sim, asked, loaded, some_trace) ran,
                  Explains.of_prefix f.count r (ground (arith, size, some_trace))
                      (report.total ∙ size) (subst (λ t. IsReport c.num_lvls t r) f.in_order report)
                      all_of,
                )
          ]
    ]

-- After any sequence of writes and reads of the trace device in which fewer than 2 ^ 31 writes are
-- accepted, with answers to all questions and more fuel than there are accepted accesses that no read
-- has returned: whatever the system's calls return and whatever is in memory for the levels not in use,
-- the run of the simulator ends with no bad access and no overflow. It reports that there are no
-- traces, or it reports on a nonempty prefix of those accesses, in the order of their writes: their
-- number, how many are reads and writes, and counters in which the hits of the levels in use and the
-- visits to memory add up to their number. If all calls succeed, the prefix is the whole, and no traces
-- are reported only if there are none.
pub run_cache_sim-history :
    (cs : List Call) (h : History) (e : LoadEnv) (fuel : ℕ) (old c : Config) (stack : Levels)
    (answers rest : List (Option ℕ))
    → run_calls cs start ≡ some h
    → length h.written < 2 ^ 31
    → length h.written < length h.returned + fuel
    → configure_cache_sim_parameters old answers ≡ some (c, rest)
    → (o : Outcome) × (run_cache_sim e fuel old stack answers h.buffer ≡ some o)
      × Explains e c.num_lvls (drop (length h.returned) h.written) o
run_cache_sim-history cs h e fuel old c stack answers rest ran small enough asked =
    let f = run_calls-from_start cs h ran in
    let size : length (contents h.buffer.chunks) ≡ length h.written = ap length f.all_kept in
    let moved : length h.returned ≡ position h.buffer = length-returned h f in
    let (o, runs, explains) =
      run_cache_sim-Explains e fuel old c stack answers rest h.buffer f.valid
        (omega (arith, size, small)) (omega (arith, size, moved, enough)) asked in
    (
      o,
      runs,
      subst (λ t. Explains e c.num_lvls t o)
          (ap (λ t. drop (position h.buffer) t) f.all_kept
            ∙ ap (λ (n : ℕ). drop n h.written) (sym moved))
          explains,
    )
