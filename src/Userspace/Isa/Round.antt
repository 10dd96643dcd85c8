-- ===== src/Userspace/Isa/Round.antt =====
-- userspace/src/cpu_emulator_userspace.c and cpu_driver/cpu_emulator_driver.c together: one round of the
-- client is one step of the instruction set.
use rpi_cpu_emulator_linux_d.Base.{
  ℕ, ◌+◌, ◌≡◌, ◌⊎◌, inl, inr, refl, sym, ap, ◌∙◌, arith, ℤ, pos, false, none, some, Option-cases,
  Bool-cases, [], ◌∷◌, ◌++◌, ltb,
}
use mathlib.Core.Path.{subst}
use mathlib.Core.Option.{some-injective}
use rpi_cpu_emulator_linux_d.Uapi.{Instruction, ReadValue}
use rpi_cpu_emulator_linux_d.Uapi.Status
use rpi_cpu_emulator_linux_d.Driver.Valid.{IsValid, FitsInstruction, execute-IsValid}
use rpi_cpu_emulator_linux_d.Driver.Exec.{execute_instruction}
use rpi_cpu_emulator_linux_d.Driver.Exec.Exits.{Machine}
use rpi_cpu_emulator_linux_d.Driver.Dev.{Device, read_tick, fill_read_value, is_einval}
use rpi_cpu_emulator_linux_d.Driver.Dev.Protocol.{tick_of, cpu_read-Served, after_tick}
use rpi_cpu_emulator_linux_d.Userspace.Memory.{Memory, load_word, fetch_next, mem_size}
use rpi_cpu_emulator_linux_d.Userspace.Memory.Words.{IsBytes, load_word-lt}
use rpi_cpu_emulator_linux_d.Userspace.Client.{
  Session, Step, continues, exits, kernel_oops, undefined, RoundEnv, read_env, access, round, serve,
  fetch_round,
}
use rpi_cpu_emulator_linux_d.Userspace.Client.Rounds.{
  GoesThrough, with_pending, sent, served_round, still_served,
}
use rpi_cpu_emulator_linux_d.Userspace.Isa.{
  Core, State, After, goes, halts, refuses, crashes, outside,
}
use rpi_cpu_emulator_linux_d.Userspace.Isa.Agrees.{core_of, Ends}

-- What holds between the programs and the instruction set, apart from the fetched instruction.
pub record Shows (s : Session) (a : State) : Type 0 where
  pub valid : IsValid s.device.machine.cpu
  pub bytes : IsBytes s.memory
  pub core : core_of s.device.machine ≡ a.core
  pub memory : s.memory ≡ a.memory
  pub accesses : s.traces ≡ a.accesses
  pub sends : s.write_buf.is_instruction ≡ 1
  pub counter : s.read_buf.pc ≡ s.device.machine.cpu.pc

pub record Represents (s : Session) (a : State) : Type 0 where
  pub shows : Shows s a
  pub fetched : fetch_next a.memory a.core.pc ≡ some s.write_buf.instruction

-- Where a round leads, against the step of the instruction set.
abbrev pub Matches : Step → After → Type 0
Matches r (goes a) =
    ((s : Session) × (r ≡ continues s) × Represents s a)
    ⊎ (fetch_next a.memory a.core.pc ≡ none) × (r ≡ undefined)
Matches r halts = (s : Session) × (r ≡ exits (pos 0) s)
Matches r refuses = (s : Session) × (r ≡ exits (pos 0) s)
Matches r crashes = r ≡ kernel_oops
Matches r outside = r ≡ undefined

fetch_next-FitsInstruction :
    (m : Memory) (pc : ℕ) (i : Instruction)
    → IsBytes m
    → fetch_next m pc ≡ some i
    → FitsInstruction i
unfolding fetch_next
fetch_next-FitsInstruction m pc i b e = elim (Bool-cases (ltb (pc + 10) mem_size)) [
  | inr out ↦ absurd (ground (arith, e, out))
  | inl inside ↦
      let j : Instruction = record {
        operand2 = load_word m (pc + 3);
        operand1 = m (pc + 2);
        opcode = m pc;
        mode = m (pc + 1);
      } in
      let there : fetch_next m pc ≡ some j = rw (fetch_next, inside) refl in
      subst FitsInstruction (some-injective j i (sym there ∙ e)) (record {
        operand2_fits = load_word-lt m (pc + 3) b;
        operand1_fits = b (pc + 2);
        opcode_fits = b pc;
        mode_fits = b (pc + 1);
      })
]

-- The end of a round fetches what the instruction set fetches next.
pub fetch_round-Matches :
    (s : Session) (a : State)
    → Shows s a
    → Matches (fetch_round s) (goes (record a { accesses = a.accesses ++ access a.core.pc 0 ∷ [] }))
unfolding fetch_round
fetch_round-Matches s a h =
    let pc : s.read_buf.pc ≡ a.core.pc = h.counter ∙ ap (λ c. c.pc) h.core in
    let same : fetch_next s.memory s.read_buf.pc ≡ fetch_next a.memory a.core.pc =
      λ t. fetch_next (h.memory t) (pc t) in
    elim (Option-cases (fetch_next s.memory s.read_buf.pc)) [
      | inl out ↦ inr (sym same ∙ out, rw (fetch_round, out) refl)
      | inr (i, there) ↦ inl (
        record s {
          write_buf = record (s.write_buf) { instruction = i };
          traces = s.traces ++ access s.read_buf.pc 0 ∷ [];
        },
        rw (fetch_round, there) refl,
        record {
          shows = record {
            valid = h.valid;
            bytes = h.bytes;
            core = h.core;
            memory = h.memory;
            accesses = λ t. (h.accesses t) ++ access (pc t) 0 ∷ [];
            sends = h.sends;
            counter = h.counter;
          };
          fetched = sym same ∙ there;
        },
      )
    ]

module _ (count : ℕ) (e : RoundEnv) (s : Session) (a : State) (rep : Represents s a)
    (g : GoesThrough count e s) where
  abbrev pub i : Instruction
  i = s.write_buf.instruction

  abbrev pub m : Machine
  m = s.device.machine

  abbrev pub d : Device
  d = with_pending s.device i

  abbrev h : Shows s a
  h = rep.shows

  pub fits : FitsInstruction i
  fits =
      fetch_next-FitsInstruction s.memory s.device.machine.cpu.pc i h.bytes
        ((λ t. fetch_next (h.memory t) ((h.core t).pc)) ∙ rep.fetched)

  -- A refused instruction makes the read fail, and the client leaves its loop.
  pub refused_round :
      (execute_instruction e.input m i).0 ≡ Status.einval
      → (s' : Session) × (round count e s ≡ exits (pos 0) s')
  unfolding round read_tick is_einval after_tick
  refused_round x = (
    record s { device = record (after_tick d) { machine = (execute_instruction e.input m i).1 } },
    ground (arith, sent count e s g, cpu_read-Served (read_env e) d (still_served g), x),
  )

  -- The read succeeds, and the client goes on with what it returned.
  pub answered_round :
      (status : ℤ) (m' : Machine) (buf : ReadValue)
      → execute_instruction e.input m i ≡ (status, m')
      → is_einval status ≡ false
      → fill_read_value status m'.cpu ≡ some buf
      → round count e s
        ≡ serve e (record s { device = record (after_tick d) { machine = m' }; read_buf = buf })
  answered_round status m' buf x ok filled =
      let (res, good, buffered, reads) =
        tick_of (read_env e) d (still_served g) status m' buf x ok filled in
      served_round count e s (record (after_tick d) { machine = m' }) res buf g reads buffered

  pub halted_round :
      (execute_instruction e.input m i).0 ≡ Status.halt
      → (s' : Session) × (round count e s ≡ exits (pos 0) s')
  unfolding serve is_einval fill_read_value
  halted_round x =
      let m' = (execute_instruction e.input m i).1 in
      (
        _,
        answered_round Status.halt m'
            (record { pc = m'.cpu.pc; mem_addr = 0; val = 0; exec_return = Status.halt })
            (λ t. (x t, m')) refl refl,
      )

  -- An operation inside the processor.
  pub ended_round :
      (c : Core)
      → Ends (execute_instruction e.input m i) (some c)
      → Matches
          (round count e s)
          (goes (record a { core = c; accesses = a.accesses ++ access c.pc 0 ∷ [] }))
  unfolding serve is_einval fill_read_value
  ended_round c (how, same) =
      let m' = (execute_instruction e.input m i).1 in
      let shown : (buf : ReadValue)
          → buf.pc ≡ m'.cpu.pc
          → Shows (record s { device = record (after_tick d) { machine = m' }; read_buf = buf })
              (record a { core = c }) =
        λ buf counter. record {
          valid = execute-IsValid e.input m i h.valid fits;
          bytes = h.bytes;
          core = same;
          memory = h.memory;
          accesses = h.accesses;
          sends = h.sends;
          counter = counter;
        } in
      elim how [
        | inl success ↦
            let buf : ReadValue = record {
              pc = m'.cpu.pc;
              mem_addr = 0;
              val = 0;
              exec_return = Status.success;
            } in
            subst
              (λ r.
                Matches r
                  (goes (record a { core = c; accesses = a.accesses ++ access c.pc 0 ∷ [] })))
              (sym (answered_round Status.success m' buf (λ t. (success t, m')) refl refl))
              (fetch_round-Matches _ (record a { core = c }) (shown buf refl))
        | inr input ↦
            let buf : ReadValue = record {
              pc = m'.cpu.pc;
              mem_addr = 0;
              val = m'.cpu.pending_mmio_read;
              exec_return = Status.pending_mmio_read;
            } in
            subst
              (λ r.
                Matches r
                  (goes (record a { core = c; accesses = a.accesses ++ access c.pc 0 ∷ [] })))
              (sym (answered_round Status.pending_mmio_read m' buf (λ t. (input t, m')) refl refl))
              (fetch_round-Matches _ (record a { core = c }) (shown buf refl))
      ]
