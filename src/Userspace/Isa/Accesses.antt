-- ===== src/Userspace/Isa/Accesses.antt =====
-- userspace/src/cpu_emulator_userspace.c and cpu_driver/cpu_emulator_driver.c together: the rounds that
-- load and store.
use rpi_cpu_emulator_linux_d.Base.{
  ℕ, ◌+◌, ◌-◌, ◌*◌, ◌/◌, ◌%◌, ◌^◌, ◌≤◌, ◌<◌, ◌≡◌, ◌⊎◌, inl, inr, refl, sym, ap, ◌∙◌, arith, ◌&&◌,
  some, Bool-cases, [], ◌∷◌, ◌++◌, leb, ltb, add64,
}
use mathlib.Core.List.{append_assoc}
use mathlib.Core.Path.{subst}
use rpi_cpu_emulator_linux_d.Uapi.{Instruction, ReadValue, instr_size}
use rpi_cpu_emulator_linux_d.Uapi.Mode
use rpi_cpu_emulator_linux_d.Uapi.Status
use rpi_cpu_emulator_linux_d.Uapi.Flag.{zf, sf}
use rpi_cpu_emulator_linux_d.Driver.Cpu.{Reg, Regs, read_reg, write_reg, mmio_start, has_flag}
use rpi_cpu_emulator_linux_d.Driver.Valid.{IsValid, FitsRegs, write_reg-FitsRegs}
use rpi_cpu_emulator_linux_d.Driver.Exec.Exits.{Machine}
use rpi_cpu_emulator_linux_d.Driver.Dev.{Device}
use rpi_cpu_emulator_linux_d.Driver.Dev.Protocol.{waiting, load_protocol, store_protocol}
use rpi_cpu_emulator_linux_d.Userspace.Memory.{Memory, load_word}
use rpi_cpu_emulator_linux_d.Userspace.Memory.Words.{
  read_from_memory-load, write_to_memory_bytewise, load_word-lt,
}
use rpi_cpu_emulator_linux_d.Userspace.Client.{
  Session, RoundEnv, read_env, access, round, serve, serve_read, serve_write, fetch_round,
}
use rpi_cpu_emulator_linux_d.Userspace.Client.Rounds.{
  GoesThrough, with_pending, served_round, still_served,
}
use rpi_cpu_emulator_linux_d.Userspace.Isa.{
  Core, Op, State, goes, perform, set_reg, next_pc, store_bytes,
}
use rpi_cpu_emulator_linux_d.Userspace.Isa.Agrees.{IsAccess}
use rpi_cpu_emulator_linux_d.Userspace.Isa.Round.{
  Shows, Represents, Matches, fetch_round-Matches, fits,
}

module _ (count : ℕ) (e : RoundEnv) (s : Session) (a : State) (rep : Represents s a)
    (g : GoesThrough count e s) where
  abbrev i : Instruction
  i = s.write_buf.instruction

  abbrev m : Machine
  m = s.device.machine

  abbrev d : Device
  d = with_pending s.device i

  abbrev h : Shows s a
  h = rep.shows

  -- One access to memory before the fetch.
  accessed_round :
      (c : Core) (memory : Memory) (type : ℕ) (s' : Session)
      → round count e s ≡ fetch_round s'
      → Shows s' (record {
        core = c;
        memory = memory;
        accesses = a.accesses ++ access i.operand2 type ∷ [];
      })
      → Matches (round count e s) (
          goes (record {
            core = c;
            memory = memory;
            accesses = a.accesses ++ access i.operand2 type ∷ access c.pc 0 ∷ [];
          }))
  accessed_round c memory type s' to_fetch shown =
      let x : State = record {
        core = c;
        memory = memory;
        accesses = a.accesses ++ access i.operand2 type ∷ [];
      } in
      subst
        (λ r. Matches r (
          goes (record x { accesses = a.accesses ++ access i.operand2 type ∷ access c.pc 0 ∷ [] })))
        (sym to_fetch)
        (subst (λ t. Matches (fetch_round s') (goes (record x { accesses = t })))
          (append_assoc a.accesses (access i.operand2 type ∷ []) (access c.pc 0 ∷ []))
          (fetch_round-Matches s' x shown))

  waiting-IsValid :
      (regs : Regs)
      → FitsRegs regs
      → i.operand2 < mmio_start
      → IsValid (record (waiting m.cpu i) { regs = regs })
  waiting-IsValid regs fit lt = record {
    regs_fit = fit;
    pc_fits = omega arith;
    fr_fits = h.valid.fr_fits;
    addr_below_mmio = lt;
    idx_fits = (fits count e s a rep g).operand1_fits;
    read_fits = h.valid.read_fits;
  }

  -- A load takes the word from the client's memory.
  pub loaded_round :
      (r : Reg)
      → IsAccess i Mode.direct_load (some r)
      → Matches (round count e s) (perform e.input (some (Op.load r i.operand2)) a)
  unfolding serve serve_read perform has_flag
  loaded_round r x =
      let v : ℕ = load_word s.memory i.operand2 in
      let (res, d2, d3, reads, buf, writes, cpu, leds, output) =
        load_protocol (read_env e) d r v (still_served g) x.is_mov x.has_mode x.below_mmio
          x.names in
      let loaded =
        read_from_memory-load s.memory i.operand2 (omega (arith, x.below_mmio)) h.bytes in
      let answer : ReadValue = record {
        pc = add64 m.cpu.pc instr_size;
        mem_addr = i.operand2;
        val = 0;
        exec_return = Status.pending_mem_read;
      } in
      accessed_round (set_reg a.core r (load_word a.memory i.operand2)) a.memory 0
        (record {
          memory = s.memory;
          device = d3;
          write_buf = record { instruction = i; val = v; is_instruction = 1 };
          read_buf = answer;
          traces = s.traces ++ access i.operand2 0 ∷ [];
        })
        (served_round count e s d2 res answer g reads buf
          ∙ ground (arith, loaded, g.answer_copied, writes))
        (record {
          valid = subst IsValid (sym cpu) (
              waiting-IsValid (write_reg m.cpu.regs r v)
                (write_reg-FitsRegs r v h.valid.regs_fit (load_word-lt s.memory i.operand2 h.bytes))
                x.below_mmio);
          bytes = h.bytes;
          core =
              (λ t. record {
                regs = (cpu t).regs;
                zero = has_flag zf (cpu t);
                negative = has_flag sf (cpu t);
                pc = (cpu t).pc;
                pin = output t;
              })
              ∙ (λ t. set_reg (h.core t) r (load_word (h.memory t) i.operand2));
          memory = h.memory;
          accesses = λ t. h.accesses t ++ access i.operand2 0 ∷ [];
          sends = refl;
          counter = sym (ap (λ c. c.pc) cpu);
        })

  -- The bytes of a stored word, one address at a time.
  stored_bytes :
      (memory : Memory) (v : ℕ)
      → ((k : ℕ) → k < 8 → memory (i.operand2 + k) ≡ v / 2 ^ (k * 8) % 256)
      → ((j : ℕ) → (j < i.operand2) ⊎ (i.operand2 + 8 ≤ j) → memory j ≡ s.memory j)
      → (j : ℕ) → memory j ≡ store_bytes s.memory i.operand2 v j
  stored_bytes memory v inner outer j =
      elim (Bool-cases (leb i.operand2 j && ltb j (i.operand2 + 8))) [
        | inr off ↦ rw (off) (outer j (ground (arith, off)))
        | inl inside ↦ rw (inside) (
            ap memory {x = j} {y = i.operand2 + (j - i.operand2)} (ground (arith, inside))
            ∙ inner (j - i.operand2) (ground (arith, inside)))
      ]

  -- A store puts the register into the client's memory.
  pub stored_round :
      (r : Reg)
      → IsAccess i Mode.direct_store (some r)
      → Matches (round count e s) (perform e.input (some (Op.store r i.operand2)) a)
  unfolding serve serve_write perform has_flag
  stored_round r x =
      let v : ℕ = read_reg m.cpu.regs r in
      let (res, d2, reads, buf, cpu, output) =
        store_protocol (read_env e) d r (still_served g) x.is_mov x.has_mode x.below_mmio x.names in
      let (memory, wrote, inner, outer, bytes) =
        write_to_memory_bytewise s.memory i.operand2 v (omega (arith, x.below_mmio)) h.bytes in
      let answer : ReadValue = record {
        pc = add64 m.cpu.pc instr_size;
        mem_addr = i.operand2;
        val = v;
        exec_return = Status.pending_mem_write;
      } in
      accessed_round (record (a.core) { pc = next_pc a.core })
        (store_bytes a.memory i.operand2 (read_reg a.core.regs r)) 1
        (record {
          memory = memory;
          device = d2;
          write_buf = s.write_buf;
          read_buf = answer;
          traces = s.traces ++ access i.operand2 1 ∷ [];
        })
        (served_round count e s d2 res answer g reads buf ∙ ground (arith, wrote))
        (record {
          valid =
              subst IsValid (sym cpu) (waiting-IsValid m.cpu.regs h.valid.regs_fit x.below_mmio);
          bytes = bytes;
          core =
              (λ t. record {
                regs = (cpu t).regs;
                zero = has_flag zf (cpu t);
                negative = has_flag sf (cpu t);
                pc = (cpu t).pc;
                pin = output t;
              })
              ∙ (λ t. record (h.core t) { pc = next_pc (h.core t) });
          memory =
              (λ t j. stored_bytes memory v inner outer j t)
              ∙ (λ t. store_bytes (h.memory t) i.operand2 (read_reg ((h.core t).regs) r));
          accesses = λ t. h.accesses t ++ access i.operand2 1 ∷ [];
          sends = h.sends;
          counter = sym (ap (λ c. c.pc) cpu);
        })
