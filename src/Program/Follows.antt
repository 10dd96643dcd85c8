-- ===== src/Program/Follows.antt =====
-- userspace/src/main.c: an assembled program runs as the instruction set says.
use rpi_cpu_emulator_linux_d.Base.{
  ℕ, zero, suc, ◌+◌, ◌*◌, ◌≤◌, ◌≡◌, refl, ap, ◌∙◌, arith, some, List, [], ◌∷◌, length, ltb, u64,
  get_elem?, if_rule,
}
use rpi_cpu_emulator_linux_d.Uapi.{Instruction, instr_size}
use rpi_cpu_emulator_linux_d.Driver.Cpu.{Leds}
use rpi_cpu_emulator_linux_d.Driver.Control.{Control}
use rpi_cpu_emulator_linux_d.Driver.Valid.{IsValid, FitsInstruction}
use rpi_cpu_emulator_linux_d.Driver.Dev.{fresh_device, zero_cpu}
use rpi_cpu_emulator_linux_d.Assembler.Text.{Text}
use rpi_cpu_emulator_linux_d.Assembler.Labels.{Uthash}
use rpi_cpu_emulator_linux_d.Assembler.Passes.{parse_assembly}
use rpi_cpu_emulator_linux_d.Assembler.Loaded.{AllFit, parse_assembly-AllFit, parse_assembly-fetch}
use rpi_cpu_emulator_linux_d.Userspace.Memory.{Memory, mem_size, fetch_next}
use rpi_cpu_emulator_linux_d.Userspace.Memory.Words.{IsBytes, poke-IsBytes}
use rpi_cpu_emulator_linux_d.Userspace.Image.{
  store_word, store_instruction, store_from, store_machine_code,
}
use rpi_cpu_emulator_linux_d.Userspace.Client.{RoundEnv, run}
use rpi_cpu_emulator_linux_d.Userspace.Isa.{steps}
use rpi_cpu_emulator_linux_d.Userspace.Isa.Run.{
  step, Follows, AllServe, StaysIn, levels, first_state, run-Follows,
}
use rpi_cpu_emulator_linux_d.Program.{zero_memory}

store_word-IsBytes :
    (base v left i : ℕ) (m : Memory) → IsBytes m → IsBytes (store_word base v left i m)
unfolding store_word
store_word-IsBytes base v zero i m b = b
store_word-IsBytes base v (suc left) i m b =
    store_word-IsBytes base v left (i + 1) _ (poke-IsBytes m (base + i) _ (omega arith) b)

store_from-IsBytes :
    (m : Memory) (base : ℕ) (xs : List Instruction)
    → AllFit xs
    → IsBytes m
    → IsBytes (store_from m base xs)
unfolding store_from store_instruction AllFit
store_from-IsBytes m base [] fit b = b
store_from-IsBytes m base (x ∷ xs) fit b =
    let f : FitsInstruction x = fit.0 in
    store_from-IsBytes (store_instruction m base x) (base + instr_size) xs (fit.1) (
      store_word-IsBytes (base + 3) x.operand2 8 0 _ (
        poke-IsBytes _ (base + 2) x.operand1 f.operand1_fits (
          poke-IsBytes _ (base + 1) x.mode f.mode_fits
            (poke-IsBytes m base x.opcode f.opcode_fits b))))

store_machine_code-IsBytes :
    (m : Memory) (xs : List Instruction)
    → AllFit xs
    → IsBytes m
    → IsBytes (store_machine_code m mem_size xs)
unfolding store_machine_code
store_machine_code-IsBytes m xs fit b =
    if_rule IsBytes (ltb mem_size (u64 (length xs * instr_size + instr_size))) b
      (store_from-IsBytes m 0 xs fit b)

pub zero_cpu-IsValid : IsValid zero_cpu
zero_cpu-IsValid = record {
  regs_fit = record {
    fits0 = omega arith;
    fits1 = omega arith;
    fits2 = omega arith;
    fits3 = omega arith;
  };
  pc_fits = omega arith;
  fr_fits = omega arith;
  addr_below_mmio = omega arith;
  idx_fits = omega arith;
  read_fits = omega arith;
}

-- A program that is assembled and fits the memory with one instruction to spare, stored in the zeroed
-- memory and run on a device that has just been opened, where in every round all buffers are copied,
-- no signal arrives and the switches let the processor run, and where every step of the instruction
-- set starts on a line of the program: after any number of rounds the client is where the same number
-- of steps of the instruction set leads, with the same registers, conditions, program counter, pin,
-- memory and list of accesses.
pub program-Follows :
    (h : Uthash) (lines : List Text) (is : List Instruction) (ts : List Text) (i : Instruction)
    (es : List RoundEnv) (leds : Leds) (output : ℕ) (control : Control)
    → parse_assembly h lines ≡ some (is, ts)
    → length is * instr_size + instr_size ≤ mem_size
    → get_elem? is 0 ≡ some i
    → AllServe es control
    → let m = store_machine_code zero_memory mem_size is in
      let d = fresh_device leds output control in
      StaysIn (length is) (levels es) (first_state m d)
      → Follows (run (length is) es m d) (steps step (levels es) (first_state m d))
program-Follows h lines is ts i es leds output control e le at serve stay =
    let m = store_machine_code zero_memory mem_size is in
    run-Follows (length is) es m (fresh_device leds output control) i (omega (arith, le))
      (store_machine_code-IsBytes zero_memory is (parse_assembly-AllFit h lines is ts e le)
        (λ a. omega arith))
      zero_cpu-IsValid refl
      (ap (fetch_next m) {x = 0} {y = 0 * instr_size} (omega arith)
        ∙ (parse_assembly-fetch h lines is ts zero_memory e le).0 0 i at)
      serve stay
