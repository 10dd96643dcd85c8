-- ===== src/Userspace/Isa/Run.antt =====
-- userspace/src/cpu_emulator_userspace.c and cpu_driver/cpu_emulator_driver.c together: `run` is a run of
-- the instruction set.
use rpi_cpu_emulator_linux_d.Base.{
  ℕ, ◌^◌, ◌<◌, ◌/◌, arith, true, false, ◌≡◌, inl, inr, refl, sym, ap, ◌∙◌, ℤ, pos, none, some, List,
  [], ◌∷◌,
}
use mathlib.Core.Path.{subst}
use rpi_cpu_emulator_linux_d.Uapi.{Instruction, instr_size}
use rpi_cpu_emulator_linux_d.Driver.Control.{Control, is_ready}
use rpi_cpu_emulator_linux_d.Driver.Valid.{IsValid}
use rpi_cpu_emulator_linux_d.Driver.Dev.{Device}
use rpi_cpu_emulator_linux_d.Userspace.Memory.{Memory, fetch_next}
use rpi_cpu_emulator_linux_d.Userspace.Memory.Words.{IsBytes}
use rpi_cpu_emulator_linux_d.Userspace.Client.{
  Session, Step, continues, exits, kernel_oops, undefined, RoundEnv, access, round, rounds, run,
  zero_read_value,
}
use rpi_cpu_emulator_linux_d.Userspace.Client.Rounds.{GoesThrough}
use rpi_cpu_emulator_linux_d.Userspace.Client.Switches.{ticked, round-ticked}
use rpi_cpu_emulator_linux_d.Userspace.Isa.{
  State, After, goes, halts, refuses, crashes, outside, perform, lands, steps,
}
use rpi_cpu_emulator_linux_d.Userspace.Isa.Decode.{decode}
use rpi_cpu_emulator_linux_d.Userspace.Isa.Agrees.{core_of}
use rpi_cpu_emulator_linux_d.Userspace.Isa.Execute.{execute_instruction-Agrees}
use rpi_cpu_emulator_linux_d.Userspace.Isa.Round.{Represents, Matches}
use rpi_cpu_emulator_linux_d.Userspace.Isa.Steps.{round-Matches}

-- The step of the instruction set.
unfoldable pub step : ℤ → State → After
unfolding lands
step level a = elim (fetch_next a.memory a.core.pc) [
  | none ↦ outside
  | some i ↦ lands (perform level (decode i) a)
]

-- Where the client is, against where the instruction set is.
abbrev pub Follows : Step → After → Type 0
Follows r (goes a) = (s : Session) × (r ≡ continues s) × Represents s a
Follows r halts = (s : Session) × (r ≡ exits (pos 0) s)
Follows r refuses = (s : Session) × (r ≡ exits (pos 0) s)
Follows r crashes = r ≡ kernel_oops
Follows r outside = r ≡ undefined

Matches-Follows : (r : Step) (x : After) → Matches r x → Follows r (lands x)
unfolding lands
Matches-Follows r (goes a) (inl (s, e, rep)) = rw (lands, rep.fetched) (s, e, rep)
Matches-Follows r (goes a) (inr (out, e)) = rw (lands, out) e
Matches-Follows r halts h = h
Matches-Follows r refuses h = h
Matches-Follows r crashes h = h
Matches-Follows r outside h = h

-- A round of the client that goes through, from a session that represents a state of the instruction
-- set, does what one step of the instruction set does. Where the step goes on, so does the round, in a
-- session that represents the new state: registers, conditions, program counter, pin, the whole memory
-- and the list of accesses are those of the step. Where the step halts or is refused, the client
-- leaves its loop with status 0. Where it loads or stores a register that does not exist, the driver
-- dereferences the NULL pointer, and where the next instruction lies outside the memory, the client
-- reads outside its array.
pub round-Follows :
    (count : ℕ) (e : RoundEnv) (s : Session) (a : State)
    → Represents s a
    → GoesThrough count e s
    → Follows (round count e s) (step e.input a)
unfolding step
round-Follows count e s a rep g =
    let i = s.write_buf.instruction in
    rw (step, rep.fetched)
      (Matches-Follows (round count e s) (perform e.input (decode i) a) (
        round-Matches count e s a rep g (decode i)
          (execute_instruction-Agrees e.input s.device.machine i rep.shows.valid.fr_fits)))

-- What a round needs of its surroundings: all buffers are copied, no signal arrives, and the switches
-- let the processor run.
pub record Serves (e : RoundEnv) (c : Control) : Type 0 where
  pub write_copied : e.write_copied ≡ true
  pub answer_copied : e.answer_copied ≡ true
  pub no_signal : e.interrupted ≡ false
  pub ready : is_ready c ≡ true
  pub read_copied : e.read_copied ≡ true

-- Every round has it; each one takes a step if one was asked for.
abbrev pub AllServe : List RoundEnv → Control → Type 0
AllServe [] c = Unit {0}
AllServe (e ∷ es) c = Serves e c × AllServe es (ticked c)

-- Wherever a step of the instruction set starts, the program counter is on one of `count` lines.
abbrev pub StaysIn : ℕ → List ℤ → State → Type 0
StaysIn count [] a = Unit {0}
StaysIn count (level ∷ levels) a =
    (a.core.pc / instr_size < count)
    × ((a' : State) → step level a ≡ goes a' → StaysIn count levels a')

abbrev pub levels : List RoundEnv → List ℤ
levels [] = []
levels (e ∷ es) = e.input ∷ levels es

-- Such a round goes through.
goes_through :
    (count : ℕ) (e : RoundEnv) (s : Session) (a : State)
    → count < 2 ^ 31
    → Represents s a
    → Serves e s.device.control
    → a.core.pc / instr_size < count
    → GoesThrough count e s
goes_through count e s a small rep serves on_line = record {
  sends = rep.shows.sends;
  write_copied = serves.write_copied;
  answer_copied = serves.answer_copied;
  served = record {
    right_len = refl;
    no_signal = serves.no_signal;
    ready = serves.ready;
    writable = serves.read_copied;
  };
  line_exists =
      let same : s.read_buf.pc ≡ a.core.pc = rep.shows.counter ∙ ap (λ c. c.pc) rep.shows.core in
      omega (arith, same, on_line, small);
  count_fits = small;
}

rounds-after :
    (count : ℕ) (e : RoundEnv) (es : List RoundEnv) (s : Session) (a : State) (x : After)
    → step e.input a ≡ x
    → ((s' : Session) (a' : State)
        → round count e s ≡ continues s'
        → step e.input a ≡ goes a'
        → Represents s' a'
        → Follows (rounds count es s') (steps step (levels es) a'))
    → Follows (round count e s) x
    → Follows (rounds count (e ∷ es) s) (elim x [
      | goes a' ↦ steps step (levels es) a'
      | halts ↦ halts
      | refuses ↦ refuses
      | crashes ↦ crashes
      | outside ↦ outside
    ])
unfolding rounds
rounds-after count e es s a (goes a') to ih (s', r, rep) = rw (rounds, r) (ih s' a' r to rep)
rounds-after count e es s a halts to ih (s', r) = (s', rw (rounds, r) refl)
rounds-after count e es s a refuses to ih (s', r) = (s', rw (rounds, r) refl)
rounds-after count e es s a crashes to ih r = rw (rounds, r) refl
rounds-after count e es s a outside to ih r = rw (rounds, r) refl

rounds-Follows :
    (count : ℕ) (es : List RoundEnv) (s : Session) (a : State)
    → count < 2 ^ 31
    → Represents s a
    → AllServe es s.device.control
    → StaysIn count (levels es) a
    → Follows (rounds count es s) (steps step (levels es) a)
unfolding rounds steps
rounds-Follows count [] s a small rep serve stay = (s, refl, rep)
rounds-Follows count (e ∷ es) s a small rep (serves, later) (on_line, stays) =
    let g = goes_through count e s a small rep serves on_line in
    rounds-after count e es s a (step e.input a) refl
      (λ s' a' r to rep'.
        rounds-Follows count es s' a' small rep'
          (subst (AllServe es) (sym (round-ticked count e s s' g r)) later) (stays a' to))
      (round-Follows count e s a rep g)

-- The session and the state that `run` starts from.
abbrev pub first_session : Memory → Device → Instruction → Session
first_session m d i = record {
  memory = m;
  device = d;
  write_buf = record { instruction = i; val = 0; is_instruction = 1 };
  read_buf = zero_read_value;
  traces = access 0 0 ∷ [];
}

abbrev pub first_state : Memory → Device → State
first_state m d = record { core = core_of (d.machine); memory = m; accesses = access 0 0 ∷ [] }

-- The whole loop, where memory holds bytes, the processor is valid and starts at address 0, the first
-- instruction lies in the memory, every round has what it needs of its surroundings, and the program
-- counter stays on the lines of the program: after any number of rounds the client is where the same
-- number of steps of the instruction set leads from the same registers and memory.
pub run-Follows :
    (count : ℕ) (es : List RoundEnv) (m : Memory) (d : Device) (i : Instruction)
    → count < 2 ^ 31
    → IsBytes m
    → IsValid d.machine.cpu
    → d.machine.cpu.pc ≡ 0
    → fetch_next m 0 ≡ some i
    → AllServe es d.control
    → StaysIn count (levels es) (first_state m d)
    → Follows (run count es m d) (steps step (levels es) (first_state m d))
unfolding run
run-Follows count es m d i small bytes valid start fetched serve stay =
    rw (run, fetched)
      (rounds-Follows count es (first_session m d i) (first_state m d) small
        (record {
          shows = record {
            valid = valid;
            bytes = bytes;
            core = refl;
            memory = refl;
            accesses = refl;
            sends = refl;
            counter = sym start;
          };
          fetched = ap (fetch_next m) start ∙ fetched;
        })
        serve stay)
