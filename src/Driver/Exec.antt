-- ===== src/Driver/Exec.antt =====
-- cpu_driver/cpu_emulator_driver.c: `execute_instruction`. The processor and the output pins that it
-- drives are the state; what `gpiod_get_value` reads of the input pin is the argument `input`.
pub mod Exits
pub mod Alu
pub mod Mov
pub mod Jump
use rpi_cpu_emulator_linux_d.Base.{ℤ, ◌==◌, if◌then◌else◌}
use rpi_cpu_emulator_linux_d.Uapi.{Instruction}
use rpi_cpu_emulator_linux_d.Uapi.Opcode
use Exits.{Machine, invalid}
use Alu.{exec_add, exec_sub, exec_and, exec_or, exec_not, exec_cmp}
use Mov.{exec_mov}
use Jump.{exec_jmp, exec_je, exec_jg, exec_jl}

unfoldable pub execute_instruction : ℤ → Machine → Instruction → ℤ × Machine
execute_instruction input m i =
    if i.opcode == Opcode.add
    then exec_add m i
    else if i.opcode == Opcode.sub
    then exec_sub m i
    else if i.opcode == Opcode.and
    then exec_and m i
    else if i.opcode == Opcode.or
    then exec_or m i
    else if i.opcode == Opcode.not
    then exec_not m i
    else if i.opcode == Opcode.mov
    then exec_mov input m i
    else if i.opcode == Opcode.cmp
    then exec_cmp m i
    else if i.opcode == Opcode.jmp
    then exec_jmp m i
    else if i.opcode == Opcode.je
    then exec_je m i
    else if i.opcode == Opcode.jg
    then exec_jg m i
    else if i.opcode == Opcode.jl
    then exec_jl m i
    else invalid m
