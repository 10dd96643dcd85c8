-- ===== src/Driver/Cases.antt =====
-- cpu_driver/cpu_emulator_driver.c: the `switch` of `execute_instruction` as a rule of proof.
use rpi_cpu_emulator_linux_d.Base.{ℤ, ◌==◌, if_rule}
use rpi_cpu_emulator_linux_d.Uapi.{Instruction}
use rpi_cpu_emulator_linux_d.Uapi.Opcode
use rpi_cpu_emulator_linux_d.Driver.Exec.{execute_instruction}
use rpi_cpu_emulator_linux_d.Driver.Exec.Exits.{Machine, invalid}
use rpi_cpu_emulator_linux_d.Driver.Exec.Alu.{
  exec_add, exec_sub, exec_and, exec_or, exec_not, exec_cmp,
}
use rpi_cpu_emulator_linux_d.Driver.Exec.Mov.{exec_mov}
use rpi_cpu_emulator_linux_d.Driver.Exec.Jump.{exec_jmp, exec_je, exec_jg, exec_jl}

-- A predicate that holds of what each case returns.
pub record InEachCase (P : ℤ × Machine → Type 0) (input : ℤ) (m : Machine) (i : Instruction)
    : Type 0 where
  pub in_add : P (exec_add m i)
  pub in_sub : P (exec_sub m i)
  pub in_and : P (exec_and m i)
  pub in_or : P (exec_or m i)
  pub in_not : P (exec_not m i)
  pub in_mov : P (exec_mov input m i)
  pub in_cmp : P (exec_cmp m i)
  pub in_jmp : P (exec_jmp m i)
  pub in_je : P (exec_je m i)
  pub in_jg : P (exec_jg m i)
  pub in_jl : P (exec_jl m i)
  pub in_default : P (invalid m)

pub execute_rule :
    (P : ℤ × Machine → Type 0) (input : ℤ) (m : Machine) (i : Instruction)
    → InEachCase P input m i
    → P (execute_instruction input m i)
unfolding execute_instruction
execute_rule P input m i c = if_rule P (i.opcode == Opcode.add) in_add (
    if_rule P (i.opcode == Opcode.sub) in_sub (
      if_rule P (i.opcode == Opcode.and) in_and (
        if_rule P (i.opcode == Opcode.or) in_or (
          if_rule P (i.opcode == Opcode.not) in_not (
            if_rule P (i.opcode == Opcode.mov) in_mov (
              if_rule P (i.opcode == Opcode.cmp) in_cmp (
                if_rule P (i.opcode == Opcode.jmp) in_jmp (
                  if_rule P (i.opcode == Opcode.je) in_je (
                    if_rule P (i.opcode == Opcode.jg) in_jg
                      (if_rule P (i.opcode == Opcode.jl) in_jl in_default))))))))))
  where
    open c use {
      in_add, in_sub, in_and, in_or, in_not, in_mov, in_cmp, in_jmp, in_je, in_jg, in_jl,
      in_default,
    }
