-- ===== src/Driver/Exec/Mov.antt =====
-- cpu_driver/cpu_emulator_driver.c, `execute_instruction`: the case of `MOV`, with its loads and
-- stores and the memory-mapped addresses.
use rpi_cpu_emulator_linux_d.Base.{ℕ, none, some, ℤ, pos}
use rpi_cpu_emulator_linux_d.Base.{◌==◌, ltb, if◌then◌else◌, to_u8}
use rpi_cpu_emulator_linux_d.Uapi.{Instruction, mmio_halt}
use rpi_cpu_emulator_linux_d.Uapi.Mode
use rpi_cpu_emulator_linux_d.Uapi.Status
use rpi_cpu_emulator_linux_d.Driver.Cpu.{Reg, read_reg, write_reg, get_register}
use rpi_cpu_emulator_linux_d.Driver.Cpu.{is_mmio, is_mmio_input, is_mmio_output}
use rpi_cpu_emulator_linux_d.Driver.Exec.Exits.{
  Machine, leave, advance, finish, invalid, exec_immediate, exec_register,
}
use rpi_cpu_emulator_linux_d.Driver.Exec.Alu.{store_immediate, store_register}

-- The driver asks userspace for memory: the address and the register wait in the processor.
unfoldable pub await_memory : ℤ → Machine → Instruction → ℤ × Machine
unfolding leave advance
await_memory status m i =
    let c = record m.cpu { pending_mem_addr = i.operand2; pending_reg_idx = i.operand1 } in
    leave m.cpu status (record m { cpu = advance c })

-- The value is kept in a `u8`, so the test on a negative value never passes.
unfoldable pub read_input : ℤ → Machine → Reg → ℤ × Machine
unfolding leave advance
read_input input m reg =
    let v = to_u8 input in
    let c = record m.cpu { pending_mmio_read = v; regs = write_reg m.cpu.regs reg v } in
    if ltb v 0
    then leave m.cpu (pos v) (record m { cpu = c })
    else leave m.cpu Status.pending_mmio_read (record m { cpu = advance c })

unfoldable pub exec_load : ℤ → Machine → Instruction → ℤ × Machine
unfolding invalid await_memory read_input
exec_load input m i =
    if is_mmio i.operand2
    then if is_mmio_input i.operand2
      then elim (get_register i.operand1) [ none ↦ invalid m | some reg ↦ read_input input m reg ]
      else invalid m
    else await_memory Status.pending_mem_read m i

unfoldable pub write_output : Machine → ℕ → ℤ × Machine
unfolding finish invalid
write_output m v =
    if v == 0
    then finish m.cpu (record m { output = 0 })
    else if v == 1
    then finish m.cpu (record m { output = 1 })
    else invalid m

unfoldable pub exec_store : Machine → Instruction → ℤ × Machine
unfolding leave invalid await_memory write_output
exec_store m i =
    if is_mmio i.operand2
    then if i.operand2 == mmio_halt
      then leave m.cpu Status.halt m
      else if is_mmio_output i.operand2
      then elim (get_register i.operand1) [
        | none ↦ invalid m
        | some reg ↦ write_output m (read_reg m.cpu.regs reg)
      ]
      else invalid m
    else await_memory Status.pending_mem_write m i

unfoldable pub exec_mov : ℤ → Machine → Instruction → ℤ × Machine
unfolding exec_immediate exec_register store_immediate store_register exec_load exec_store
exec_mov input m i =
    if i.mode == Mode.immediate
    then exec_immediate (store_immediate (λ _ v. v)) m i
    else if i.mode == Mode.register
    then exec_register (store_register (λ _ v. v)) m i
    else if i.mode == Mode.direct_load
    then exec_load input m i
    else if i.mode == Mode.direct_store
    then exec_store m i
    else invalid m
