-- ===== src/Program/Report.antt =====
-- userspace/src/main.c: the program as a whole, from the source file to the report of the simulator.
use rpi_cpu_emulator_linux_d.Base.{
  ℕ, suc, ◌+◌, ◌^◌, ◌≤◌, ◌<◌, ◌≡◌, inl, inr, refl, sym, ap, ◌∙◌, arith, ℤ, pos, true, false, not,
  Option, some, List, [], ◌∷◌, ◌++◌, ltb, if◌then◌else◌, length, drop,
}
use mathlib.Core.Path.{subst}
use mathlib.Core.Option.{some-injective}
use mathlib.Core.List.{append-nil, append_assoc}
use rpi_cpu_emulator_linux_d.Uapi.{Instruction, MemAccess}
use rpi_cpu_emulator_linux_d.Trace.Buffer.{TraceBuffer}
use rpi_cpu_emulator_linux_d.Trace.Device.{trace_write, sizeof_mem_access}
use rpi_cpu_emulator_linux_d.Trace.Log.{IsValid}
use rpi_cpu_emulator_linux_d.Trace.Push.{push-Appends}
use rpi_cpu_emulator_linux_d.Trace.History.{
  Call, write, History, run_call, run_calls, start, IsFaithful, is_success, run_call-IsFaithful,
  start-IsFaithful,
}
use rpi_cpu_emulator_linux_d.Assembler.Text.{Text}
use rpi_cpu_emulator_linux_d.Assembler.Labels.{Uthash}
use rpi_cpu_emulator_linux_d.Assembler.Passes.{parse_assembly}
use rpi_cpu_emulator_linux_d.Userspace.Memory.{mem_size}
use rpi_cpu_emulator_linux_d.Userspace.Image.{store_machine_code}
use rpi_cpu_emulator_linux_d.Userspace.Client.{Session, exits, run}
use rpi_cpu_emulator_linux_d.Cache.Config.{Config, configure_cache_sim_parameters}
use rpi_cpu_emulator_linux_d.Cache.Run.{Outcome}
use rpi_cpu_emulator_linux_d.Cache.Run.History.{Explains, run_cache_sim-history}
use rpi_cpu_emulator_linux_d.Program.{
  World, success, failure, doc_prefix, path_size, build_path, zero_memory, writes, report,
  after_run, main,
}

-- A write whose allocation succeeds is accepted.
trace_write_accepts :
    (e : MemAccess) (junk : ℕ → MemAccess) (tb : TraceBuffer)
    → IsValid tb
    → (r : ℤ × TraceBuffer) × (trace_write sizeof_mem_access true e (some junk) tb ≡ some r)
      × (is_success r.0 ≡ true)
unfolding trace_write
trace_write_accepts e junk tb v =
    let (r, pushed, how) = push-Appends (some junk) e tb v in
    elim how [
      | inl (zero_status, a) ↦
          ((pos sizeof_mem_access, r.1), ground (arith, pushed, zero_status), refl)
      | inr (failed, k, full) ↦ absurd (cc)
    ]

run_calls-step :
    (c : Call) (cs : List Call) (h h' : History)
    → run_call c h ≡ some h'
    → run_calls (c ∷ cs) h ≡ run_calls cs h'
unfolding run_calls
run_calls-step c cs h h' e = rw (run_calls, e) refl

-- All accesses of a list, written one after another.
writes_all :
    (chunks : ℕ → Option (ℕ → MemAccess)) (k : ℕ) (ts : List MemAccess) (h : History)
    → ((k : ℕ) → (junk : ℕ → MemAccess) × (chunks k ≡ some junk))
    → IsFaithful h
    → (h' : History) × (run_calls (writes chunks k ts) h ≡ some h')
      × (h'.written ≡ h.written ++ ts)
      × (h'.returned ≡ h.returned)
unfolding run_calls run_call
writes_all chunks k [] h there f = (h, refl, sym (append-nil h.written), refl)
writes_all chunks k (t ∷ ts) h there f =
    let (junk, got) = there k in
    let (r, wrote, accepted) = trace_write_accepts t junk h.buffer f.valid in
    let one : History = record {
      written = h.written ++ t ∷ [];
      returned = h.returned;
      buffer = r.1;
    } in
    let step : run_call (write sizeof_mem_access true t (chunks k)) h ≡ some one =
      rw (got, run_call, wrote, accepted) refl in
    let (h1, e1, f1) = run_call-IsFaithful (write sizeof_mem_access true t (chunks k)) h f in
    let g : IsFaithful one = subst IsFaithful (some-injective h1 one (sym e1 ∙ step)) f1 in
    let (h', e, w, x) = writes_all chunks (suc k) ts one there g in
    (
      h',
      run_calls-step (write sizeof_mem_access true t (chunks k)) (writes chunks (suc k) ts) h one
            step
          ∙ e,
      w ∙ append_assoc h.written (t ∷ []) ts,
      x,
    )

report-Explains :
    (w : World) (traces : List MemAccess) (c : Config) (rest : List (Option ℕ))
    → ((k : ℕ) → (junk : ℕ → MemAccess) × (w.chunks k ≡ some junk))
    → length traces < 2 ^ 31
    → length traces < w.fuel
    → configure_cache_sim_parameters w.config w.answers ≡ some (c, rest)
    → (o : Outcome) × (report w traces ≡ success o) × Explains w.load c.num_lvls traces o
unfolding report
report-Explains w traces c rest there small enough asked =
    let (h, ran, written, returned) = writes_all w.chunks 0 traces start there start-IsFaithful in
    let (o, runs, explains) =
      run_cache_sim-history (writes w.chunks 0 traces) h w.load w.fuel w.config c w.stack w.answers
        rest ran (omega (arith, ap length written, small))
        (omega (arith, ap length written, enough)) asked in
    (
      o,
      rw (report, ran, runs) refl,
      subst (λ t. Explains w.load c.num_lvls t o) (λ i. drop (length (returned i)) (written i))
          explains,
    )

-- The whole program, with a file name that fits the path, a source file that is there and is assembled,
-- devices that open, a loop that ends with status 0, allocations in the trace collector that succeed,
-- fewer than 2 ^ 31 accesses, and answers to all questions: it ends with EXIT_SUCCESS. It has then
-- reported on a nonempty prefix of the accesses that the loop has listed, in their order, or said that
-- there are no traces. If also every call of `load_traces` to the system succeeds, the report is on
-- exactly the accesses that the loop has listed, and there are no traces only if it has listed none.
pub main-Explains :
    (h : Uthash) (w : World) (name : Text) (lines : List Text) (is : List Instruction)
    (ts : List Text) (s : Session) (c : Config) (rest : List (Option ℕ))
    → length (doc_prefix ++ name) + 1 ≤ path_size
    → w.file (doc_prefix ++ name) ≡ some lines
    → parse_assembly h lines ≡ some (is, ts)
    → w.devices_open ≡ true
    → run (length is) w.rounds (store_machine_code zero_memory mem_size is) w.device
      ≡ exits (pos 0) s
    → ((k : ℕ) → (junk : ℕ → MemAccess) × (w.chunks k ≡ some junk))
    → length s.traces < 2 ^ 31
    → length s.traces < w.fuel
    → configure_cache_sim_parameters w.config w.answers ≡ some (c, rest)
    → (o : Outcome) × (main h w (some name) ≡ success o) × Explains w.load c.num_lvls s.traces o
unfolding main build_path after_run
main-Explains h w name lines is ts s c rest short there assembled opens ran chunks small enough
      asked =
    let (o, reports, explains) = report-Explains w s.traces c rest chunks small enough asked in
    let fits : ltb path_size (length (doc_prefix ++ name) + 1) ≡ false = ground (arith, short) in
    let loop = run (length is) w.rounds (store_machine_code zero_memory mem_size is) w.device in
    let reached : main h w (some name)
        ≡ (if not w.devices_open then failure else after_run w loop) =
      rw (main, build_path, fits, there, assembled) refl in
    (
      o,
      reached
          ∙ ap (λ b. if not b then failure else after_run w loop) opens
          ∙ ap (after_run w) ran
          ∙ reports,
      explains,
    )
