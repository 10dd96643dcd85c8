-- ===== src/Tests/Machines.antt =====
-- The processors, instructions and switches that the tests start from.
use rpi_cpu_emulator_linux_d.Base.{pos, true, false}
use rpi_cpu_emulator_linux_d.Uapi.{Instruction}
use rpi_cpu_emulator_linux_d.Driver.Cpu.{Cpu, Regs, Leds}
use rpi_cpu_emulator_linux_d.Driver.Control.{Control}
use rpi_cpu_emulator_linux_d.Driver.Exec.Exits.{Machine}
use rpi_cpu_emulator_linux_d.Driver.Dev.{Device, ReadEnv, sizeof_read_value}

abbrev pub some_regs : Regs
some_regs = record { reg0 = 7; reg1 = 7; reg2 = 40; reg3 = 0 }

abbrev pub some_cpu : Cpu
some_cpu = record {
  regs = some_regs;
  pc = 0;
  fr = 0x81;
  pending_mem_addr = 0x200;
  pending_reg_idx = 9;
  pending_mmio_read = 0;
}

abbrev pub no_leds : Leds
no_leds = record { led0 = 0; led1 = 0; led2 = 0; led3 = 0 }

abbrev pub some_machine : Machine
some_machine = record { cpu = some_cpu; leds = no_leds; output = 0 }

-- `MOV R1, [0x100]`, `MOV [0x100], R2`, and a store whose first operand names no register.
abbrev pub mov_load : Instruction
mov_load = record { operand2 = 0x100; operand1 = 1; opcode = 0x10; mode = 2 }

abbrev pub mov_store : Instruction
mov_store = record { operand2 = 0x100; operand1 = 2; opcode = 0x10; mode = 3 }

abbrev pub bad_store : Instruction
bad_store = record { operand2 = 0x100; operand1 = 9; opcode = 0x10; mode = 3 }

-- An opcode that the processor does not have.
abbrev pub unknown_instruction : Instruction
unknown_instruction = record { operand2 = 0; operand1 = 0; opcode = 0x77; mode = 0 }

-- `ADD R0, 1` and `CMP R2, 41`
abbrev pub add_instruction : Instruction
add_instruction = record { operand2 = 1; operand1 = 0; opcode = 0; mode = 0 }

abbrev pub cmp_instruction : Instruction
cmp_instruction = record { operand2 = 41; operand1 = 2; opcode = 0x20; mode = 0 }

abbrev pub running : Control
running = record { running = pos 1; paused = pos 0; steps = 0 }

abbrev pub stepping : Control
stepping = record { running = pos 1; paused = pos 1; steps = 2 }

abbrev pub device_with : Instruction → Control → Device
device_with i c = record { machine = some_machine; pending_instruction = i; control = c }

abbrev pub read_buffer : ReadEnv
read_buffer = record {
  len = sizeof_read_value;
  clock_speed = 10;
  interrupted = false;
  input = pos 1;
  copied = true;
}
