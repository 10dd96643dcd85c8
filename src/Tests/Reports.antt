-- ===== src/Tests/Reports.antt =====
-- userspace/src/main.c on a concrete program: assembled, run on the driver, and reported on.
use rpi_cpu_emulator_linux_d.Base.{◌≡◌, refl, ap, arith, pos, true, some, List, [], ◌∷◌, length}
use rpi_cpu_emulator_linux_d.Uapi.{Instruction}
use rpi_cpu_emulator_linux_d.Driver.Cpu.{get_register, read_reg, write_reg, is_mmio}
use rpi_cpu_emulator_linux_d.Driver.Control.{is_ready, is_set, has_step, take_step, pause}
use rpi_cpu_emulator_linux_d.Driver.Exec.{execute_instruction}
use rpi_cpu_emulator_linux_d.Driver.Exec.Exits.{leave, finish, advance, invalid, exec_immediate}
use rpi_cpu_emulator_linux_d.Driver.Exec.Alu.{store_immediate}
use rpi_cpu_emulator_linux_d.Driver.Exec.Mov.{exec_mov, exec_store}
use rpi_cpu_emulator_linux_d.Driver.Dev.{
  fresh_device, cpu_write, cpu_read, read_tick, fill_read_value, is_einval,
}
use rpi_cpu_emulator_linux_d.Assembler.Text.{
  Text, text_eq, contains, cut_at, remove_comment, is_empty, substring, skip_spaces, skip_spaces_at,
  find_end, split_by_char, remove_newline,
}
use rpi_cpu_emulator_linux_d.Assembler.Number.{
  is_space, digit_of, base_digit, read_digits, skip_white, convert, skip_prefix, signed, strtoull,
  parse_int,
}
use rpi_cpu_emulator_linux_d.Assembler.Labels.{put, get}
use rpi_cpu_emulator_linux_d.Assembler.Parse.{
  replace_comma, operation_opcode, jump_opcode, register_number, ends_with, bracketed,
  parse_operand2, parse_operand1, default_mode, parse_operands, label_target, parse_jump,
  parse_line,
}
use rpi_cpu_emulator_linux_d.Assembler.Passes.{
  is_code, grow, halt_instr, halt_text, first_pass, second_step, second_pass, parse_assembly,
}
use rpi_cpu_emulator_linux_d.Userspace.Memory.{mem_size, fetch_next, load_word, word_of, poke}
use rpi_cpu_emulator_linux_d.Userspace.Image.{
  store_machine_code, store_from, store_instruction, store_word,
}
use rpi_cpu_emulator_linux_d.Userspace.Client.{
  Session, Step, exits, access, run, rounds, round, serve, fetch_round,
}
use rpi_cpu_emulator_linux_d.Userspace.Isa.Run.{first_session}
use rpi_cpu_emulator_linux_d.Cache.Run.{Outcome}
use rpi_cpu_emulator_linux_d.Cache.Run.History.{Explains}
use rpi_cpu_emulator_linux_d.Program.{World, zero_memory, main, success}
use rpi_cpu_emulator_linux_d.Program.Report.{main-Explains}
use rpi_cpu_emulator_linux_d.Tests.Machines
use rpi_cpu_emulator_linux_d.Tests.Assembly.{entries, mov_line}
use rpi_cpu_emulator_linux_d.Tests.Caches.{small_levels}
use rpi_cpu_emulator_linux_d.Tests.Simulator.{
  calls_work, unset, some_answers, some_config, some_answers-accepted,
}
use rpi_cpu_emulator_linux_d.Tests.Programs.{round_env, mov_instruction}

-- `MOV R1, 5` alone, with HALT behind it.
abbrev short_lines : List Text
short_lines = mov_line ∷ []

abbrev short_instructions : List Instruction
short_instructions = mov_instruction ∷ halt_instr ∷ []

abbrev short_texts : List Text
short_texts = remove_newline mov_line ∷ halt_text ∷ []

short_lines-assembled : parse_assembly entries short_lines ≡ some (short_instructions, short_texts)
unfolding text_eq contains cut_at remove_comment is_empty substring skip_spaces skip_spaces_at
    find_end split_by_char remove_newline is_space digit_of base_digit read_digits skip_white
    convert skip_prefix signed strtoull parse_int put get replace_comma operation_opcode jump_opcode
    register_number ends_with bracketed parse_operand2 parse_operand1 default_mode parse_operands
    label_target parse_jump parse_line is_code grow first_pass second_step second_pass
    parse_assembly
short_lines-assembled = refl

abbrev some_world : World
some_world = record {
  file = λ path. some short_lines;
  devices_open = true;
  device = fresh_device Machines.no_leds 0 Machines.running;
  rounds = round_env ∷ round_env ∷ [];
  chunks = λ k. some (λ i. access 0 0);
  load = calls_work;
  fuel = 5;
  config = unset;
  stack = small_levels;
  answers = some_answers;
}

abbrev short_run : Step
short_run =
    run 2 some_world.rounds (store_machine_code zero_memory mem_size short_instructions)
      some_world.device

-- The session in which the client leaves its loop.
abbrev ended : Session
ended = elim short_run [
  | exits status s ↦ s
  | _ ↦ first_session zero_memory some_world.device mov_instruction
]

short_run-ended : (short_run ≡ exits (pos 0) ended) × (ended.traces ≡ access 0 0 ∷ access 11 0 ∷ [])
unfolding run rounds round serve fetch_round cpu_write cpu_read read_tick fill_read_value is_einval
    is_ready is_set has_step take_step pause execute_instruction exec_mov exec_store exec_immediate
    store_immediate leave finish advance invalid get_register read_reg write_reg is_mmio fetch_next
    load_word word_of store_machine_code store_from store_instruction store_word poke
short_run-ended = (refl, refl)

main-Explains_example :
    (o : Outcome) × (main entries some_world (some (b'a' ∷ [])) ≡ success o)
    × Explains calls_work 2 ended.traces o
main-Explains_example =
    main-Explains entries some_world (b'a' ∷ []) short_lines short_instructions short_texts ended
      some_config [] (omega arith) refl short_lines-assembled refl short_run-ended.0
      (λ k. ((λ i. access 0 0), refl)) (omega (arith, ap length short_run-ended.1))
      (omega (arith, ap length short_run-ended.1)) some_answers-accepted
