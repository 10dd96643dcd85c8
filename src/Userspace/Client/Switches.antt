-- ===== src/Userspace/Client/Switches.antt =====
-- userspace/src/cpu_emulator_userspace.c and cpu_driver/cpu_emulator_driver.c together: what one round of
-- `run` leaves of the switches.
use rpi_cpu_emulator_linux_d.Base.{u32}
use rpi_cpu_emulator_linux_d.Base.{ℕ, ◌≡◌, inl, inr, refl, sym, ◌∙◌, arith, pos, negsuc, ℤ}
use rpi_cpu_emulator_linux_d.Base.{
  Option-cases, Bool, option_rule, if_rule, ◌==◌, [], ◌∷◌, ◌++◌, if◌then◌else◌, leb, ◌^◌,
}
use mathlib.Core.Path.{subst}
use rpi_cpu_emulator_linux_d.Uapi.{WriteValue}
use rpi_cpu_emulator_linux_d.Driver.Control.{Control, has_step, take_step}
use rpi_cpu_emulator_linux_d.Driver.Dev.{
  Device, Outcome, returns, oops, sleeps, ReadEnv, ReadResult, cpu_write, cpu_read, read_tick,
  sizeof_write_value,
}
use rpi_cpu_emulator_linux_d.Driver.Dev.Protocol.{cpu_read-Served}
use rpi_cpu_emulator_linux_d.Userspace.Memory.{fetch_next, read_from_memory, write_to_memory}
use rpi_cpu_emulator_linux_d.Userspace.Client.{
  Session, Step, continues, kernel_oops, blocks, RoundEnv, read_env, round, serve, serve_read,
  serve_write, fetch_round, access, text_index, int_le,
}
use rpi_cpu_emulator_linux_d.Userspace.Client.Rounds.{GoesThrough, sent, still_served, with_pending}

-- The switches after a tick: a step that was there is taken.
abbrev pub ticked : Control → Control
ticked c = if has_step c then take_step c else c

-- The switches behind a device, where the client goes on.
abbrev Keeps : Control → Step → Type 0
Keeps c (continues s) = s.device.control ≡ c
Keeps c x = Unit {0}

cpu_write-control :
    (len : ℕ) (copied : Bool) (wv : WriteValue) (d d' : Device) (n : ℤ)
    → cpu_write len copied wv d ≡ returns (n, d')
    → d'.control ≡ d.control
unfolding cpu_write
cpu_write-control len copied wv d d' n h = ground (arith, h)

read_tick-control :
    (e : ReadEnv) (d d' : Device) (res : ReadResult)
    → read_tick e d ≡ returns (res, d')
    → d'.control ≡ ticked d.control
unfolding read_tick
read_tick-control e d d' res h = ground (arith, h)

fetch_round-Keeps : (s : Session) → Keeps s.device.control (fetch_round s)
unfolding fetch_round
fetch_round-Keeps s = elim (Option-cases (fetch_next s.memory s.read_buf.pc)) [
  | inl out ↦ rw (fetch_round, out) tt
  | inr (i, there) ↦ rw (fetch_round, there) refl
]

-- To prove a predicate of what is done with the result of a call of the driver, outcome by outcome.
outcome_rule :
    {A : Type 0} (P : Step → Type 0) (o : Outcome A) {next : A → Step}
    → P kernel_oops
    → P blocks
    → ((a : A) → o ≡ returns a → P (next a))
    → P (elim o [ oops ↦ kernel_oops | sleeps ↦ blocks | returns a ↦ next a ])
outcome_rule P (returns a) o s r = r a refl
outcome_rule P oops o s r = o
outcome_rule P sleeps o s r = s

serve_read-Keeps : (e : RoundEnv) (s : Session) → Keeps s.device.control (serve_read e s)
unfolding serve_read
serve_read-Keeps e s =
    option_rule (Keeps s.device.control) (read_from_memory s.memory s.read_buf.mem_addr) tt (λ v.
      let w : WriteValue = record (s.write_buf) { val = v; is_instruction = 0 } in
      outcome_rule (Keeps s.device.control)
        (cpu_write sizeof_write_value e.answer_copied w s.device) tt tt
        (λ (n, d) h.
          let s' : Session = record s {
            device = d;
            write_buf = record w { is_instruction = 1 };
            traces = s.traces ++ access s.read_buf.mem_addr 0 ∷ [];
          } in
          subst (λ c. Keeps c (fetch_round s'))
            (cpu_write-control sizeof_write_value e.answer_copied w s.device d n h)
            (fetch_round-Keeps s')))

serve_write-Keeps : (s : Session) → Keeps s.device.control (serve_write s)
unfolding serve_write
serve_write-Keeps s =
    option_rule (Keeps s.device.control)
      (write_to_memory s.memory s.read_buf.mem_addr s.read_buf.val) tt
      (λ m.
        fetch_round-Keeps
          (record s { memory = m; traces = s.traces ++ access s.read_buf.mem_addr 1 ∷ [] }))

serve-Keeps : (e : RoundEnv) (s : Session) → Keeps s.device.control (serve e s)
unfolding serve
serve-Keeps e s = by_status s.read_buf.exec_return refl
  where
    K : Step → Type 0
    K = Keeps s.device.control

    by_status : (status : ℤ) → s.read_buf.exec_return ≡ status → K (serve e s)
    by_status (pos n) h =
        rw (serve, h)
          (if_rule K (n == 0) (fetch_round-Keeps s) (
            if_rule K (n == 1) (serve_read-Keeps e s) (
              if_rule K (n == 2) (serve_write-Keeps s)
                (if_rule K (n == 3) (fetch_round-Keeps s) tt))))
    by_status (negsuc n) h = rw (serve, h) (if_rule K (n == 0) tt tt)

-- A round that goes through and goes on leaves the switches as one tick of the driver leaves them.
pub round-ticked :
    (count : ℕ) (e : RoundEnv) (s s' : Session)
    → GoesThrough count e s
    → round count e s ≡ continues s'
    → s'.device.control ≡ ticked s.device.control
unfolding round
round-ticked count e s s' g h = subst (Keeps (ticked s.device.control)) h round-Keeps
  where
    K : Step → Type 0
    K = Keeps (ticked s.device.control)

    round-Keeps : K (round count e s)
    round-Keeps =
        rw (round, sent count e s g)
          (outcome_rule K (cpu_read (read_env e) (with_pending s.device s.write_buf.instruction)) tt
            tt
            (λ (res, d) reads. option_rule K res.buf tt (λ buf.
              if_rule K (int_le (u32 count) (text_index s.read_buf.pc)) tt (
                if_rule K (leb (2 ^ 31) (text_index s.read_buf.pc)) tt (
                  subst (λ c. Keeps c (serve e (record s { device = d; read_buf = buf })))
                    (read_tick-control (read_env e) (with_pending s.device s.write_buf.instruction)
                      d res
                      (sym (
                          cpu_read-Served (read_env e)
                            (with_pending s.device s.write_buf.instruction) (still_served g))
                        ∙ reads))
                    (serve-Keeps e (record s { device = d; read_buf = buf })))))))
