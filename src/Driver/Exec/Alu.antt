-- ===== src/Driver/Exec/Alu.antt =====
-- cpu_driver/cpu_emulator_driver.c, `execute_instruction`: the cases of the arithmetic and logical
-- opcodes and of `CMP`.
use rpi_cpu_emulator_linux_d.Base.{ℕ, none, some, not, ℤ}
use rpi_cpu_emulator_linux_d.Base.{◌==◌, if◌then◌else◌, add64, sub64, not64}
use rpi_cpu_emulator_linux_d.Base.{bit_and, bit_or}
use rpi_cpu_emulator_linux_d.Uapi.{Instruction}
use rpi_cpu_emulator_linux_d.Uapi.Mode
use rpi_cpu_emulator_linux_d.Driver.Cpu.{Cpu, Reg, read_reg, write_reg, get_register}
use rpi_cpu_emulator_linux_d.Driver.Cpu.{handle_compare_immediate}
use rpi_cpu_emulator_linux_d.Driver.Cpu.{handle_compare_register}
use rpi_cpu_emulator_linux_d.Driver.Exec.Exits.{
  Machine, finish, invalid, exec_immediate, exec_register,
}

-- `*reg op= operand2` and `*reg1 op= *reg2`
unfoldable pub store_immediate : (ℕ → ℕ → ℕ) → Cpu → Reg → ℕ → Cpu
store_immediate op c reg v = record c { regs = write_reg c.regs reg (op (read_reg c.regs reg) v) }

unfoldable pub store_register : (ℕ → ℕ → ℕ) → Cpu → Reg → Reg → Cpu
unfolding store_immediate
store_register op c reg1 reg2 = store_immediate op c reg1 (read_reg c.regs reg2)

-- The shape of `ADD`, `SUB`, `AND` and `OR`.
unfoldable pub exec_binary : (ℕ → ℕ → ℕ) → Machine → Instruction → ℤ × Machine
unfolding exec_immediate exec_register store_immediate store_register
exec_binary op m i =
    if i.mode == Mode.immediate
    then exec_immediate (store_immediate op) m i
    else if i.mode == Mode.register
    then exec_register (store_register op) m i
    else invalid m

unfoldable pub exec_add : Machine → Instruction → ℤ × Machine
unfolding exec_binary
exec_add = exec_binary add64

unfoldable pub exec_sub : Machine → Instruction → ℤ × Machine
unfolding exec_binary
exec_sub = exec_binary sub64

unfoldable pub exec_and : Machine → Instruction → ℤ × Machine
unfolding exec_binary
exec_and = exec_binary bit_and

unfoldable pub exec_or : Machine → Instruction → ℤ × Machine
unfolding exec_binary
exec_or = exec_binary bit_or

-- The only operand of `NOT` is the second one.
unfoldable pub exec_not : Machine → Instruction → ℤ × Machine
unfolding finish invalid
exec_not m i = if not (i.mode == Mode.register) then invalid m else elim (get_register i.operand2) [
  | none ↦ invalid m
  | some reg ↦ finish m.cpu (record m { cpu = store_immediate (λ v _. not64 v) m.cpu reg 0 })
]

unfoldable pub exec_cmp : Machine → Instruction → ℤ × Machine
unfolding exec_immediate exec_register handle_compare_immediate handle_compare_register
exec_cmp m i =
    if i.mode == Mode.immediate
    then exec_immediate handle_compare_immediate m i
    else if i.mode == Mode.register
    then exec_register handle_compare_register m i
    else invalid m
