-- ===== src/Tests/Programs.antt =====
-- A concrete program from its lines to the report, with the client, the driver and the simulator.
use rpi_cpu_emulator_linux_d.Base.{
  ℕ, ◌*◌, ◌≡◌, refl, ap, arith, pos, true, false, some, [], ◌∷◌, if◌then◌else◌, get_elem?, add64,
}
use rpi_cpu_emulator_linux_d.Uapi.{Instruction, instr_size}
use rpi_cpu_emulator_linux_d.Uapi.Opcode
use rpi_cpu_emulator_linux_d.Driver.Control.{is_ready, is_set, has_step}
use rpi_cpu_emulator_linux_d.Driver.Exec.{execute_instruction}
use rpi_cpu_emulator_linux_d.Driver.Branch.{pc_after, taken}
use rpi_cpu_emulator_linux_d.Driver.Cpu.{get_register}
use rpi_cpu_emulator_linux_d.Driver.Dev.{fresh_device, zero_instruction}
use rpi_cpu_emulator_linux_d.Assembler.Text.{
  text_eq, contains, cut_at, remove_comment, is_empty, substring, skip_spaces, skip_spaces_at,
  find_end, split_by_char,
}
use rpi_cpu_emulator_linux_d.Assembler.Parse.{parse_line, replace_comma, jump_opcode}
use rpi_cpu_emulator_linux_d.Assembler.Passes.{first_pass, halt_instr, is_code}
use rpi_cpu_emulator_linux_d.Assembler.Passes.Numbers.{is_label, count_code}
use rpi_cpu_emulator_linux_d.Assembler.Loaded.{parse_assembly-fetch}
use rpi_cpu_emulator_linux_d.Assembler.Jumps.{parse_assembly-jump}
use rpi_cpu_emulator_linux_d.Userspace.Memory.{
  Memory, mem_size, fetch_next, load_word, word_of, poke,
}
use rpi_cpu_emulator_linux_d.Userspace.Image.{
  store_word, store_instruction, store_from, store_machine_code,
}
use rpi_cpu_emulator_linux_d.Userspace.Client.{RoundEnv, round, run}
use rpi_cpu_emulator_linux_d.Userspace.Client.Rounds.{GoesThrough}
use rpi_cpu_emulator_linux_d.Userspace.Isa.{After, goes, steps, apply, perform, lands}
use rpi_cpu_emulator_linux_d.Userspace.Isa.Decode.{
  decode, decode_mov, decode_immediate, register_named,
}
use rpi_cpu_emulator_linux_d.Userspace.Isa.Agrees.{Agrees}
use rpi_cpu_emulator_linux_d.Userspace.Isa.Execute.{execute_instruction-Agrees}
use rpi_cpu_emulator_linux_d.Userspace.Isa.Round.{Represents}
use rpi_cpu_emulator_linux_d.Userspace.Isa.Run.{
  Serves, StaysIn, step, Follows, first_session, first_state, round-Follows,
}
use rpi_cpu_emulator_linux_d.Program.{zero_memory}
use rpi_cpu_emulator_linux_d.Program.Follows.{program-Follows, zero_cpu-IsValid}
use rpi_cpu_emulator_linux_d.Tests.Machines
use rpi_cpu_emulator_linux_d.Tests.Assembly.{
  entries, mov_line, label_line, jump_line, some_lines, some_instructions, some_texts,
  some_lines-assembled,
}

parse_assembly-fetch_example :
    ((k : ℕ) (i : Instruction)
      → get_elem? some_instructions k ≡ some i
      → fetch_next (store_machine_code zero_memory mem_size some_instructions) (k * instr_size)
        ≡ some i)
    × (fetch_next
          (store_machine_code zero_memory mem_size some_instructions)
          (count_code some_lines * instr_size)
        ≡ some halt_instr)
parse_assembly-fetch_example =
    parse_assembly-fetch entries some_lines some_instructions some_texts zero_memory
      some_lines-assembled (omega arith)

-- The jump of the program to its label `up`.
parse_assembly-jump_example :
    let labels = first_pass entries some_lines [] 0 in
    (i j : Instruction) × (address : ℕ) × (parse_line entries (remove_comment jump_line) labels
      ≡ some i)
    × (parse_line entries (remove_comment jump_line) labels ≡ some j)
    × (pc_after (pos 0) Machines.some_machine j
        ≡ (if taken Opcode.jmp Machines.some_cpu then address else add64 0 instr_size))
    × (fetch_next (store_machine_code zero_memory mem_size some_instructions) address ≡ some i)
unfolding is_label is_code contains is_empty cut_at remove_comment replace_comma split_by_char
    substring skip_spaces skip_spaces_at find_end jump_opcode text_eq
parse_assembly-jump_example =
    parse_assembly-jump entries (mov_line ∷ []) [] label_line jump_line (remove_comment jump_line)
      (b'J' ∷ b'M' ∷ b'P' ∷ []) some_instructions some_texts zero_memory Opcode.jmp (pos 0)
      Machines.some_machine some_lines-assembled (omega arith) refl refl refl tt refl refl refl

abbrev pub round_env : RoundEnv
round_env = record {
  write_copied = true;
  answer_copied = true;
  clock_speed = 10;
  interrupted = false;
  input = pos 0;
  read_copied = true;
}

abbrev loaded_memory : Memory
loaded_memory = store_machine_code zero_memory mem_size some_instructions

abbrev pub mov_instruction : Instruction
mov_instruction = record { operand2 = 5; operand1 = 1; opcode = 0x10; mode = 0 }

first_goes :
    (m : Memory) (i : Instruction)
    → GoesThrough 3 round_env (first_session m (fresh_device Machines.no_leds 0 Machines.running) i)
unfolding is_ready is_set has_step
first_goes m i = record {
  sends = refl;
  write_copied = refl;
  answer_copied = refl;
  served = record { right_len = refl; no_signal = refl; ready = refl; writable = refl };
  line_exists = omega arith;
  count_fits = omega arith;
}

-- The address where a step goes on.
abbrev pc_of : After → ℕ
pc_of (goes a) = a.core.pc
pc_of x = 0

served : Serves round_env Machines.running
unfolding is_ready is_set has_step
served = record {
  write_copied = refl;
  answer_copied = refl;
  no_signal = refl;
  ready = refl;
  read_copied = refl;
}

-- The first step is `MOV R1, 5`, and the second one starts at the next line.
some_program-StaysIn :
    StaysIn 3
      (pos 0 ∷ pos 0 ∷ [])
      (first_state loaded_memory (fresh_device Machines.no_leds 0 Machines.running))
unfolding step fetch_next load_word word_of store_machine_code store_from store_instruction
    store_word poke decode decode_mov decode_immediate perform apply lands get_register
    register_named
some_program-StaysIn = (
  omega arith,
  λ a e. let there : 11 ≡ a.core.pc = ap pc_of e in (omega (arith, there), λ b f. tt),
)

program-Follows_example :
    Follows
      (run 3
        (round_env ∷ round_env ∷ [])
        loaded_memory
        (fresh_device Machines.no_leds 0 Machines.running))
      (steps step
        (pos 0 ∷ pos 0 ∷ [])
        (first_state loaded_memory (fresh_device Machines.no_leds 0 Machines.running)))
unfolding has_step
program-Follows_example =
    program-Follows entries some_lines some_instructions some_texts mov_instruction
      (round_env ∷ round_env ∷ []) Machines.no_leds 0 Machines.running some_lines-assembled
      (omega arith) refl (served, (served, tt)) some_program-StaysIn

execute_instruction-Agrees_example :
    Agrees
      (pos 1)
      Machines.some_machine
      Machines.mov_store
      (execute_instruction (pos 1) Machines.some_machine Machines.mov_store)
      (decode Machines.mov_store)
execute_instruction-Agrees_example =
    execute_instruction-Agrees (pos 1) Machines.some_machine Machines.mov_store (omega arith)

first-Represents :
    Represents
      (first_session zero_memory
        (fresh_device Machines.no_leds 0 Machines.running)
        zero_instruction)
      (first_state zero_memory (fresh_device Machines.no_leds 0 Machines.running))
unfolding fetch_next load_word word_of
first-Represents = record {
  shows = record {
    valid = zero_cpu-IsValid;
    bytes = λ a. omega arith;
    core = refl;
    memory = refl;
    accesses = refl;
    sends = refl;
    counter = refl;
  };
  fetched = refl;
}

-- Memory of zeros holds `ADD R0, 0` everywhere.
round-Follows_example :
    Follows
      (round 3 round_env (
        first_session zero_memory
          (fresh_device Machines.no_leds 0 Machines.running)
          zero_instruction))
      (step (pos 0) (first_state zero_memory (fresh_device Machines.no_leds 0 Machines.running)))
round-Follows_example =
    round-Follows 3 round_env
      (first_session zero_memory (fresh_device Machines.no_leds 0 Machines.running)
        zero_instruction)
      (first_state zero_memory (fresh_device Machines.no_leds 0 Machines.running)) first-Represents
      (first_goes zero_memory zero_instruction)
