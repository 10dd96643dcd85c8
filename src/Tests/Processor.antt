-- ===== src/Tests/Processor.antt =====
-- cpu_driver/cpu_emulator_driver.c on concrete inputs.
use rpi_cpu_emulator_linux_d.Base.{
  ◌/◌, ◌%◌, ◌^◌, ◌≡◌, ◌↔◌, refl, arith, pos, true, false, none, some, [], ◌∷◌,
}
use rpi_cpu_emulator_linux_d.Uapi.{Instruction}
use rpi_cpu_emulator_linux_d.Uapi.Opcode
use rpi_cpu_emulator_linux_d.Uapi.Flag.{zf, sf, cf}
use rpi_cpu_emulator_linux_d.Uapi.Status
use rpi_cpu_emulator_linux_d.Driver.Cpu.{
  r1, r2, r3, get_register, read_reg, write_reg, set_diodes, has_flag, handle_compare,
}
use rpi_cpu_emulator_linux_d.Driver.Control.{
  run_event, step_event, handle_event, is_ready, is_set, has_step, pause, take_step,
}
use rpi_cpu_emulator_linux_d.Driver.Control.Wake.{
  count_steps, handle_events, handle_event_wakes, handle_events_steps,
}
use rpi_cpu_emulator_linux_d.Driver.Exec.{execute_instruction}
use rpi_cpu_emulator_linux_d.Driver.Exec.Exits.{Machine, invalid}
use rpi_cpu_emulator_linux_d.Driver.Outcome.{IsOutcome, execute-IsOutcome}
use rpi_cpu_emulator_linux_d.Driver.Valid.{IsValid, execute-IsValid}
use rpi_cpu_emulator_linux_d.Driver.Flags.{handle_compare_bits}
use rpi_cpu_emulator_linux_d.Driver.Branch.{
  with_immediate, pc_after, jump, branch, cmp_then_jump, cmp_overflow,
}
use rpi_cpu_emulator_linux_d.Driver.Dev.{
  Device, returns, oops, ReadResult, cpu_write, cpu_read, read_tick, is_einval,
}
use rpi_cpu_emulator_linux_d.Driver.Dev.{sizeof_read_value, sizeof_write_value}
use rpi_cpu_emulator_linux_d.Driver.Dev.Protocol.{
  Served, waiting, reply_value, load_protocol, store_protocol,
}
use rpi_cpu_emulator_linux_d.Driver.Dev.Faults.{cpu_write_oops, cpu_read_oops, cpu_read-einval}
use rpi_cpu_emulator_linux_d.Tests.Machines

execute-IsOutcome_example :
    IsOutcome Machines.some_machine Machines.add_instruction
      (execute_instruction (pos 0) Machines.some_machine Machines.add_instruction)
execute-IsOutcome_example = execute-IsOutcome (pos 0) Machines.some_machine Machines.add_instruction

abbrev some_cpu-IsValid : IsValid Machines.some_cpu
some_cpu-IsValid = record {
  regs_fit = record {
    fits0 = omega arith;
    fits1 = omega arith;
    fits2 = omega arith;
    fits3 = omega arith;
  };
  pc_fits = omega arith;
  fr_fits = omega arith;
  addr_below_mmio = omega arith;
  idx_fits = omega arith;
  read_fits = omega arith;
}

execute-IsValid_example :
    IsValid (execute_instruction (pos 0) Machines.some_machine Machines.add_instruction).1.cpu
execute-IsValid_example =
    execute-IsValid (pos 0) Machines.some_machine Machines.add_instruction some_cpu-IsValid
      (record {
        operand2_fits = omega arith;
        operand1_fits = omega arith;
        opcode_fits = omega arith;
        mode_fits = omega arith;
      })

handle_compare_bits_example :
    let d = handle_compare Machines.some_cpu 0 in
    (has_flag zf d ≡ true)
    × (has_flag sf d ≡ false)
    × (has_flag cf d ≡ false)
    × (d.fr / 256 ≡ 0)
    × (d.fr / 2 % 32 ≡ 0)
handle_compare_bits_example = handle_compare_bits Machines.some_cpu 0 (omega arith)

cmp_then_jump_example :
    let n = (execute_instruction (pos 0) Machines.some_machine Machines.cmp_instruction).1 in
    (pc_after (pos 0) n (jump Opcode.je 3) ≡ branch n.cpu false 3)
    × (pc_after (pos 0) n (jump Opcode.jg 3) ≡ branch n.cpu false 3)
    × (pc_after (pos 0) n (jump Opcode.jl 3) ≡ branch n.cpu true 3)
unfolding get_register read_reg
cmp_then_jump_example =
    cmp_then_jump (pos 0) (pos 0) Machines.some_machine Machines.cmp_instruction 40 41 3
      some_cpu-IsValid (with_immediate r2 refl refl refl refl refl) (omega arith) (omega arith) refl

-- `CMP R3, 1` where R3 holds the least 64-bit integer.
abbrev least_machine : Machine
least_machine = record Machines.some_machine {
  cpu = record Machines.some_cpu { regs = record Machines.some_regs { reg3 = 2 ^ 63 } };
}

abbrev cmp_one : Instruction
cmp_one = record { operand2 = 1; operand1 = 3; opcode = 0x20; mode = 0 }

abbrev least_cpu-IsValid : IsValid least_machine.cpu
least_cpu-IsValid = record {
  regs_fit = record {
    fits0 = omega arith;
    fits1 = omega arith;
    fits2 = omega arith;
    fits3 = omega arith;
  };
  pc_fits = omega arith;
  fr_fits = omega arith;
  addr_below_mmio = omega arith;
  idx_fits = omega arith;
  read_fits = omega arith;
}

cmp_overflow_example :
    let n = (execute_instruction (pos 0) least_machine cmp_one).1 in
    (pc_after (pos 0) n (jump Opcode.jg 3) ≡ branch n.cpu true 3)
    × (pc_after (pos 0) n (jump Opcode.jl 3) ≡ branch n.cpu false 3)
unfolding get_register read_reg
cmp_overflow_example =
    cmp_overflow (pos 0) (pos 0) least_machine cmp_one (2 ^ 63) 1 3 least_cpu-IsValid
      (with_immediate r3 refl refl refl refl refl) (omega arith) (omega arith) (omega arith)
      (omega arith)

abbrev serves :
    (i : Instruction) → Served Machines.read_buffer (Machines.device_with i Machines.running)
unfolding is_ready is_set has_step
serves i = record { right_len = refl; no_signal = refl; ready = refl; writable = refl }

load_protocol_example :
    let i = Machines.mov_load in
    let d = Machines.device_with i Machines.running in
    (res : ReadResult) × (d1 d2 : Device) × (cpu_read Machines.read_buffer d ≡ returns (res, d1))
    × (res.buf
        ≡ some
            (record { pc = 11; mem_addr = 0x100; val = 0; exec_return = Status.pending_mem_read }))
    × (cpu_write sizeof_write_value true (reply_value i 5) d1
        ≡ returns (pos sizeof_write_value, d2))
    × (d2.machine.cpu
        ≡ record (waiting Machines.some_cpu i) { regs = write_reg Machines.some_regs r1 5 })
    × (d2.machine.leds ≡ set_diodes d2.machine.cpu Machines.some_cpu)
    × (d2.machine.output ≡ d.machine.output)
unfolding get_register
load_protocol_example =
    load_protocol Machines.read_buffer (Machines.device_with Machines.mov_load Machines.running) r1
      5 (serves Machines.mov_load) refl refl (omega arith) refl

store_protocol_example :
    let i = Machines.mov_store in
    let d = Machines.device_with i Machines.running in
    (res : ReadResult) × (d1 : Device) × (cpu_read Machines.read_buffer d ≡ returns (res, d1))
    × (res.buf
        ≡ some (record {
          pc = 11;
          mem_addr = 0x100;
          val = 40;
          exec_return = Status.pending_mem_write;
        }))
    × (d1.machine.cpu ≡ waiting Machines.some_cpu i)
    × (d1.machine.output ≡ d.machine.output)
unfolding get_register read_reg
store_protocol_example =
    store_protocol Machines.read_buffer (Machines.device_with Machines.mov_store Machines.running)
      r2 (serves Machines.mov_store) refl refl (omega arith) refl

cpu_read_oops_example :
    (cpu_read Machines.read_buffer (Machines.device_with Machines.bad_store Machines.running)
      ≡ oops)
    ↔ ((sizeof_read_value ≡ 32)
        × (false ≡ false)
        × (is_ready Machines.running ≡ true)
        × ((execute_instruction (pos 1) Machines.some_machine Machines.bad_store).0
            ≡ Status.pending_mem_write)
        × (get_register 9 ≡ none))
cpu_read_oops_example =
    cpu_read_oops Machines.read_buffer (Machines.device_with Machines.bad_store Machines.running)

cpu_write_oops_example :
    let d = Machines.device_with Machines.bad_store Machines.running in
    (cpu_write 32 true (reply_value Machines.bad_store 5) d ≡ oops) ↔ (
      (sizeof_write_value ≡ 32)
      × (true ≡ true)
      × ((reply_value Machines.bad_store 5).is_instruction ≡ 0)
      × (get_register 9 ≡ none))
cpu_write_oops_example =
    cpu_write_oops 32 true (reply_value Machines.bad_store 5)
      (Machines.device_with Machines.bad_store Machines.running)

abbrev refused_result : ReadResult
refused_result = record { status = Status.einval; buf = none; delay = some (pause 10) }

abbrev refusing : Device
refusing = Machines.device_with Machines.unknown_instruction Machines.running

refusing-reads : cpu_read Machines.read_buffer refusing ≡ returns (refused_result, refusing)
unfolding cpu_read read_tick execute_instruction is_einval is_ready is_set has_step take_step
    invalid set_diodes
refusing-reads = refl

cpu_read-einval_example :
    (refusing.machine.cpu ≡ Machines.some_cpu)
    × (refusing.machine.output ≡ 0)
    × (refusing.pending_instruction ≡ Machines.unknown_instruction)
cpu_read-einval_example = cpu_read-einval Machines.read_buffer refusing refusing-reads refl

handle_event_wakes_example :
    (handle_event (run_event (pos 1)) (record Machines.running { running = pos 0 })).1 ≡ true
unfolding is_ready is_set has_step handle_event
handle_event_wakes_example =
    handle_event_wakes (run_event (pos 1)) (record Machines.running { running = pos 0 }) refl refl

handle_events_steps_example :
    let d =
      handle_events
        (step_event (pos 1) ∷ run_event (pos 1) ∷ step_event (pos 1) ∷ [])
        Machines.stepping in
    (d.paused ≡ pos 1) × (d.steps ≡ 4)
unfolding count_steps is_set
handle_events_steps_example =
    handle_events_steps (step_event (pos 1) ∷ run_event (pos 1) ∷ step_event (pos 1) ∷ [])
      Machines.stepping tt (omega arith)
