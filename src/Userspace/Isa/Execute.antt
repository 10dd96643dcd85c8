-- ===== src/Userspace/Isa/Execute.antt =====
-- cpu_driver/cpu_emulator_driver.c: `execute_instruction` does what the encoding of the instruction
-- stands for.
use rpi_cpu_emulator_linux_d.Base.{
  ==_iff, ◌^◌, ◌<◌, ◌≡◌, ℤ, Option, none, ◌==◌, if_both, add64, sub64, bit_and, bit_or, ==_iff,
}
use rpi_cpu_emulator_linux_d.Uapi.{Instruction}
use rpi_cpu_emulator_linux_d.Uapi.Opcode
use rpi_cpu_emulator_linux_d.Driver.Exec.{execute_instruction}
use rpi_cpu_emulator_linux_d.Driver.Exec.Exits.{Machine, invalid}
use rpi_cpu_emulator_linux_d.Driver.Exec.Alu.{
  exec_add, exec_sub, exec_and, exec_or, exec_not, exec_cmp,
}
use rpi_cpu_emulator_linux_d.Driver.Exec.Mov.{exec_mov}
use rpi_cpu_emulator_linux_d.Driver.Exec.Jump.{exec_jmp, exec_je, exec_jg, exec_jl}
use rpi_cpu_emulator_linux_d.Userspace.Isa.{Op, Internal, Condition}
use rpi_cpu_emulator_linux_d.Userspace.Isa.Decode.{
  decode, decode_binary, decode_not, decode_mov, decode_jump,
}
use rpi_cpu_emulator_linux_d.Userspace.Isa.Agrees.{Agrees}
use rpi_cpu_emulator_linux_d.Userspace.Isa.Cases.{
  invalid-Ok, binaries-Ok, not-Ok, cmp-Ok, jmp-Ok, branches-Ok,
}
use rpi_cpu_emulator_linux_d.Userspace.Isa.Moves.{mov-Ok}

-- The `switch` and the decoder side by side, for a relation between what they give.
switch_both :
    (P : ℤ × Machine → Option Op → Type 0) (level : ℤ) (m : Machine) (i : Instruction)
    → P (exec_add m i) (decode_binary (Internal.compute add64) i)
      × P (exec_sub m i) (decode_binary (Internal.compute sub64) i)
      × P (exec_and m i) (decode_binary (Internal.compute bit_and) i)
      × P (exec_or m i) (decode_binary (Internal.compute bit_or) i)
    → P (exec_not m i) (decode_not i)
    → (i.opcode ≡ Opcode.mov → P (exec_mov level m i) (decode_mov i))
    → P (exec_cmp m i) (decode_binary Internal.compare i)
    → P (exec_jmp m i) (decode_jump Condition.always i)
    → P (exec_je m i) (decode_jump Condition.if_zero i)
      × P (exec_jg m i) (decode_jump Condition.if_positive i)
      × P (exec_jl m i) (decode_jump Condition.if_negative i)
    → P (invalid m) none
    → P (execute_instruction level m i) (decode i)
unfolding execute_instruction decode
switch_both P level m i binaries not_case mov_case cmp_case jmp_case branches refused =
    if_both P (i.opcode == Opcode.add) (λ _. binaries.0)
      (λ _.
        if_both P (i.opcode == Opcode.sub) (λ _. binaries.1)
          (λ _.
            if_both P (i.opcode == Opcode.and) (λ _. binaries.2)
              (λ _.
                if_both P (i.opcode == Opcode.or) (λ _. binaries.3)
                  (λ _.
                    if_both P (i.opcode == Opcode.not) (λ _. not_case)
                      (λ _.
                        if_both P (i.opcode == Opcode.mov)
                          (λ e. mov_case ((==_iff i.opcode Opcode.mov).0 e))
                          (λ _.
                            if_both P (i.opcode == Opcode.cmp) (λ _. cmp_case)
                              (λ _.
                                if_both P (i.opcode == Opcode.jmp) (λ _. jmp_case)
                                  (λ _.
                                    if_both P (i.opcode == Opcode.je) (λ _. branches.0)
                                      (λ _.
                                        if_both P (i.opcode == Opcode.jg) (λ _. branches.1)
                                          (λ _.
                                            if_both P (i.opcode == Opcode.jl) (λ _. branches.2)
                                              (λ _. refused)))))))))))

-- `execute_instruction` on a processor whose flags fit 16 bits agrees with the instruction set: an
-- encoding that stands for nothing is refused with -EINVAL; an operation inside the processor changes
-- the registers, the two conditions, the program counter and the pin as the instruction set says, or is
-- refused where it says so; HALT returns EXEC_HALT; and what is left are the loads and stores of
-- ordinary memory.
pub execute_instruction-Agrees :
    (level : ℤ) (m : Machine) (i : Instruction)
    → m.cpu.fr < 2 ^ 16
    → Agrees level m i (execute_instruction level m i) (decode i)
execute_instruction-Agrees level m i fits =
    switch_both (Agrees level m i) level m i (binaries-Ok level m i) (not-Ok level m i)
      (mov-Ok level m i) (cmp-Ok level m i fits) (jmp-Ok level m i) (branches-Ok level m i)
      (invalid-Ok level m i)
