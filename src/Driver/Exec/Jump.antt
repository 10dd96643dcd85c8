-- ===== src/Driver/Exec/Jump.antt =====
-- cpu_driver/cpu_emulator_driver.c, `execute_instruction`: the cases of the jumps.
use rpi_cpu_emulator_linux_d.Base.{◌&&◌, not, ℤ}
use rpi_cpu_emulator_linux_d.Base.{if◌then◌else◌, mul64}
use rpi_cpu_emulator_linux_d.Uapi.{Instruction, instr_size}
use rpi_cpu_emulator_linux_d.Uapi.Status
use rpi_cpu_emulator_linux_d.Uapi.Flag.{zf, sf}
use rpi_cpu_emulator_linux_d.Driver.Cpu.{has_flag}
use rpi_cpu_emulator_linux_d.Driver.Exec.Exits.{Machine, leave, finish}

unfoldable pub exec_jmp : Machine → Instruction → ℤ × Machine
unfolding leave
exec_jmp m i =
    let c = record m.cpu { pc = mul64 i.operand2 instr_size } in
    leave m.cpu Status.success (record m { cpu = c })

unfoldable pub exec_je : Machine → Instruction → ℤ × Machine
unfolding exec_jmp finish
exec_je m i = if has_flag zf m.cpu then exec_jmp m i else finish m.cpu m

unfoldable pub exec_jg : Machine → Instruction → ℤ × Machine
unfolding exec_jmp finish
exec_jg m i =
    if not (has_flag sf m.cpu) && not (has_flag zf m.cpu) then exec_jmp m i else finish m.cpu m

unfoldable pub exec_jl : Machine → Instruction → ℤ × Machine
unfolding exec_jmp finish
exec_jl m i = if has_flag sf m.cpu then exec_jmp m i else finish m.cpu m
