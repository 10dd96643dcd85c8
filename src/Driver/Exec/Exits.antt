-- ===== src/Driver/Exec/Exits.antt =====
-- cpu_driver/cpu_emulator_driver.c, `execute_instruction`: its state, its exits, and the two shapes
-- of branch that several opcodes share.
use rpi_cpu_emulator_linux_d.Base.{ℕ, none, some, ℤ}
use rpi_cpu_emulator_linux_d.Base.{add64}
use rpi_cpu_emulator_linux_d.Uapi.{Instruction, instr_size}
use rpi_cpu_emulator_linux_d.Uapi.Status
use rpi_cpu_emulator_linux_d.Driver.Cpu.{Cpu, Reg, Leds, get_register}
use rpi_cpu_emulator_linux_d.Driver.Cpu.{set_diodes}

-- The processor, the diodes and the level of the output pin.
pub record Machine : Type 0 where
  pub cpu : Cpu
  pub leds : Leds
  pub output : ℕ

-- `set_diodes(*cpu, prev_state); return status;`
unfoldable pub leave : Cpu → ℤ → Machine → ℤ × Machine
leave prev status m = (status, record m { leds = set_diodes m.cpu prev })

-- `cpu->pc += INSTR_SIZE`
unfoldable pub advance : Cpu → Cpu
advance c = record c { pc = add64 c.pc instr_size }

-- What follows the label `end`.
unfoldable pub finish : Cpu → Machine → ℤ × Machine
unfolding advance
finish prev m = (Status.success, record m { leds = set_diodes m.cpu prev; cpu = advance m.cpu })

-- `set_diodes(*cpu, prev_state); return -EINVAL;`
unfoldable pub invalid : Machine → ℤ × Machine
unfolding leave
invalid m = leave m.cpu Status.einval m

-- The branch of an immediate operand, with what it does to the processor.
unfoldable pub exec_immediate : (Cpu → Reg → ℕ → Cpu) → Machine → Instruction → ℤ × Machine
unfolding finish invalid
exec_immediate act m i = elim (get_register i.operand1) [
  | none ↦ invalid m
  | some reg ↦ finish m.cpu (record m { cpu = act m.cpu reg i.operand2 })
]

-- The branch of two registers.
unfoldable pub exec_register : (Cpu → Reg → Reg → Cpu) → Machine → Instruction → ℤ × Machine
unfolding finish invalid
exec_register act m i = elim (get_register i.operand1) [
  | none ↦ invalid m
  | some reg1 ↦ elim (get_register i.operand2) [
    | none ↦ invalid m
    | some reg2 ↦ finish m.cpu (record m { cpu = act m.cpu reg1 reg2 })
  ]
]
