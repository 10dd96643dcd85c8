-- ===== src/Driver/Outcome.antt =====
-- cpu_driver/cpu_emulator_driver.c: what every way out of `execute_instruction` has in common: the
-- diodes, the program counter of each status, and that a refused instruction changes nothing.
use rpi_cpu_emulator_linux_d.Base.{
  ℕ, ◌≡◌, ◌≢◌, ◌⊎◌, arith, ℤ, add64, sub64, bit_and, bit_or, mul64, not64, to_u8, ltb-zero, inl,
  inr, Bool, if_rule, option_rule, if◌then◌else◌,
}
use rpi_cpu_emulator_linux_d.Base.{refl}
use rpi_cpu_emulator_linux_d.Uapi.{Instruction, instr_size}
use rpi_cpu_emulator_linux_d.Uapi.Status
use rpi_cpu_emulator_linux_d.Driver.Cpu.{
  Cpu, Reg, read_reg, set_diodes, get_register, handle_compare,
}
use rpi_cpu_emulator_linux_d.Driver.Cpu.{handle_compare_immediate, handle_compare_register}
use rpi_cpu_emulator_linux_d.Driver.Cpu.{set_flag, clear_flag}
use rpi_cpu_emulator_linux_d.Driver.Exec.{execute_instruction}
use rpi_cpu_emulator_linux_d.Driver.Cases.{execute_rule}
use rpi_cpu_emulator_linux_d.Driver.Exec.Exits.{Machine, leave, finish, invalid}
use rpi_cpu_emulator_linux_d.Driver.Exec.Exits.{exec_immediate, exec_register}
use rpi_cpu_emulator_linux_d.Driver.Exec.Alu.{store_immediate, store_register, exec_binary}
use rpi_cpu_emulator_linux_d.Driver.Exec.Alu.{
  exec_add, exec_sub, exec_and, exec_or, exec_not, exec_cmp,
}
use rpi_cpu_emulator_linux_d.Driver.Exec.Mov.{
  exec_load, exec_store, exec_mov, read_input, write_output,
}
use rpi_cpu_emulator_linux_d.Driver.Exec.Jump.{exec_jmp, exec_je, exec_jg, exec_jl}

-- A diode is lit exactly if its register has changed.
abbrev pub Shows : ℕ → ℕ → ℕ → Type 0
Shows led now before = (led ≡ 0) × (now ≡ before) ⊎ (led ≡ 1) × (now ≢ before)

-- The program counter that a status leaves behind, and what it may have changed.
pub data Moves (m : Machine) (i : Instruction) (r : ℤ × Machine) : Type 0 where
  next : r.0 ≡ Status.success → r.1.cpu.pc ≡ add64 m.cpu.pc instr_size → Moves m i r
  jumped :
      r.0 ≡ Status.success
      → r.1.cpu.pc ≡ mul64 i.operand2 instr_size
      → r.1.cpu.regs ≡ m.cpu.regs
      → r.1.output ≡ m.output
      → Moves m i r
  waits :
      (r.0 ≡ Status.pending_mem_read) ⊎ (r.0 ≡ Status.pending_mem_write)
      → r.1.cpu ≡ record m.cpu {
        pc = add64 m.cpu.pc instr_size;
        pending_mem_addr = i.operand2;
        pending_reg_idx = i.operand1;
      }
      → r.1.output ≡ m.output
      → Moves m i r
  has_read :
      r.0 ≡ Status.pending_mmio_read
      → r.1.cpu.pc ≡ add64 m.cpu.pc instr_size
      → r.1.output ≡ m.output
      → Moves m i r
  stays :
      (r.0 ≡ Status.halt) ⊎ (r.0 ≡ Status.einval)
      → r.1.cpu ≡ m.cpu
      → r.1.output ≡ m.output
      → Moves m i r

pub record IsOutcome (m : Machine) (i : Instruction) (r : ℤ × Machine) : Type 0 where
  pub shown0 : Shows r.1.leds.led0 r.1.cpu.regs.reg0 m.cpu.regs.reg0
  pub shown1 : Shows r.1.leds.led1 r.1.cpu.regs.reg1 m.cpu.regs.reg1
  pub shown2 : Shows r.1.leds.led2 r.1.cpu.regs.reg2 m.cpu.regs.reg2
  pub shown3 : Shows r.1.leds.led3 r.1.cpu.regs.reg3 m.cpu.regs.reg3
  pub moves : Moves m i r

module _ (m : Machine) (i : Instruction) where
  invalid-IsOutcome : IsOutcome m i (invalid m)
  unfolding invalid set_diodes
  invalid-IsOutcome = record {
    shown0 = ground arith;
    shown1 = ground arith;
    shown2 = ground arith;
    shown3 = ground arith;
    moves = Moves.stays (inr refl) refl refl;
  }

  finish-IsOutcome :
      (c : Cpu) (v : ℕ)
      → c.pc ≡ m.cpu.pc
      → IsOutcome m i (finish m.cpu (record m { cpu = c; output = v }))
  unfolding finish set_diodes
  finish-IsOutcome c v e = record {
    shown0 = ground arith;
    shown1 = ground arith;
    shown2 = ground arith;
    shown3 = ground arith;
    moves = Moves.next refl (ground arith);
  }

  leave-Shows :
      (c : Cpu) (status : ℤ)
      → Moves m i (leave m.cpu status (record m { cpu = c }))
      → IsOutcome m i (leave m.cpu status (record m { cpu = c }))
  unfolding leave set_diodes
  leave-Shows c status moves = record {
    shown0 = ground arith;
    shown1 = ground arith;
    shown2 = ground arith;
    shown3 = ground arith;
    moves = moves;
  }

  -- What an action does to the processor leaves the program counter alone.
  exec_immediate-IsOutcome :
      (act : Cpu → Reg → ℕ → Cpu)
      → ((r : Reg) → (act m.cpu r i.operand2).pc ≡ m.cpu.pc)
      → IsOutcome m i (exec_immediate act m i)
  unfolding exec_immediate
  exec_immediate-IsOutcome act keep =
      option_rule (IsOutcome m i) (get_register i.operand1) invalid-IsOutcome
        (λ r. finish-IsOutcome (act m.cpu r i.operand2) m.output (keep r))

  exec_register-IsOutcome :
      (act : Cpu → Reg → Reg → Cpu)
      → ((r s : Reg) → (act m.cpu r s).pc ≡ m.cpu.pc)
      → IsOutcome m i (exec_register act m i)
  unfolding exec_register
  exec_register-IsOutcome act keep =
      option_rule (IsOutcome m i) (get_register i.operand1) invalid-IsOutcome λ r.
        option_rule (IsOutcome m i) (get_register i.operand2) invalid-IsOutcome
          (λ s. finish-IsOutcome (act m.cpu r s) m.output (keep r s))

  exec_binary-IsOutcome : (op : ℕ → ℕ → ℕ) → IsOutcome m i (exec_binary op m i)
  unfolding exec_binary
  exec_binary-IsOutcome op =
      if_rule (IsOutcome m i) _ (exec_immediate-IsOutcome (store_immediate op) (λ r. refl)) (
        if_rule (IsOutcome m i) _ (exec_register-IsOutcome (store_register op) (λ r s. refl))
          invalid-IsOutcome)

  exec_not-IsOutcome : IsOutcome m i (exec_not m i)
  unfolding exec_not store_immediate
  exec_not-IsOutcome = if_rule (IsOutcome m i) _ invalid-IsOutcome (
      option_rule (IsOutcome m i) (get_register i.operand2) invalid-IsOutcome
        (λ r. finish-IsOutcome (store_immediate (λ v _. not64 v) m.cpu r 0) m.output refl))

  pc-handle_compare : (c : Cpu) (result : ℕ) → (handle_compare c result).pc ≡ c.pc
  unfolding handle_compare set_flag clear_flag
  pc-handle_compare c result = ground arith

  exec_cmp-IsOutcome : IsOutcome m i (exec_cmp m i)
  unfolding exec_cmp
  exec_cmp-IsOutcome =
      if_rule (IsOutcome m i) _
        (exec_immediate-IsOutcome handle_compare_immediate (λ r. pc-handle_compare m.cpu _))
        (if_rule (IsOutcome m i) _
          (exec_register-IsOutcome handle_compare_register (λ r s. pc-handle_compare m.cpu _))
          invalid-IsOutcome)

  read_input-IsOutcome : (input : ℤ) (r : Reg) → IsOutcome m i (read_input input m r)
  unfolding read_input
  read_input-IsOutcome input r =
      rw (ltb-zero (to_u8 input)) (leave-Shows _ _ (Moves.has_read refl refl refl))

  exec_load-IsOutcome : (input : ℤ) → IsOutcome m i (exec_load input m i)
  unfolding exec_load
  exec_load-IsOutcome input =
      if_rule (IsOutcome m i) _
        (if_rule (IsOutcome m i) _
          (option_rule (IsOutcome m i) (get_register i.operand1) invalid-IsOutcome
            (read_input-IsOutcome input))
          invalid-IsOutcome)
        (leave-Shows _ _ (Moves.waits (inl refl) refl refl))

  exec_store-IsOutcome : IsOutcome m i (exec_store m i)
  unfolding exec_store
  exec_store-IsOutcome =
      if_rule (IsOutcome m i) _
        (if_rule (IsOutcome m i) _ (leave-Shows _ _ (Moves.stays (inl refl) refl refl)) (
          if_rule (IsOutcome m i) _
            (option_rule (IsOutcome m i) (get_register i.operand1) invalid-IsOutcome writes)
            invalid-IsOutcome))
        (leave-Shows _ _ (Moves.waits (inr refl) refl refl))
    where
      writes : (r : Reg) → IsOutcome m i (write_output m (read_reg m.cpu.regs r))
      writes r =
          if_rule (IsOutcome m i) _ (finish-IsOutcome m.cpu 0 refl)
            (if_rule (IsOutcome m i) _ (finish-IsOutcome m.cpu 1 refl) invalid-IsOutcome)

  exec_mov-IsOutcome : (input : ℤ) → IsOutcome m i (exec_mov input m i)
  unfolding exec_mov
  exec_mov-IsOutcome input =
      if_rule (IsOutcome m i) _ (exec_immediate-IsOutcome (store_immediate (λ _ v. v)) (λ r. refl))
        (if_rule (IsOutcome m i) _
          (exec_register-IsOutcome (store_register (λ _ v. v)) (λ r s. refl))
          (if_rule (IsOutcome m i) _ (exec_load-IsOutcome input)
            (if_rule (IsOutcome m i) _ exec_store-IsOutcome invalid-IsOutcome)))

  exec_jmp-IsOutcome : IsOutcome m i (exec_jmp m i)
  unfolding exec_jmp
  exec_jmp-IsOutcome = leave-Shows _ _ (Moves.jumped refl refl refl refl)

  exec_branch-IsOutcome : (b : Bool) → IsOutcome m i (if b then exec_jmp m i else finish m.cpu m)
  exec_branch-IsOutcome b =
      if_rule (IsOutcome m i) b exec_jmp-IsOutcome (finish-IsOutcome m.cpu m.output refl)

-- Every execution ends in one of five ways. With EXEC_SUCCESS the program counter moves by one
-- instruction, or a jump sets it to the operand times the size of an instruction and changes no
-- register. A pending memory access stores its address and its register number, moves the program
-- counter by one instruction, and changes nothing else. A pending read of the input pin moves it
-- too. EXEC_HALT and -EINVAL leave the whole processor and the output pin as they were. In each
-- case a diode is lit exactly if its register changed.
pub execute-IsOutcome :
    (input : ℤ) (m : Machine) (i : Instruction) → IsOutcome m i (execute_instruction input m i)
unfolding exec_add exec_sub exec_and exec_or exec_je exec_jg exec_jl
execute-IsOutcome input m i = execute_rule (IsOutcome m i) input m i (record {
  in_add = exec_binary-IsOutcome m i add64;
  in_sub = exec_binary-IsOutcome m i sub64;
  in_and = exec_binary-IsOutcome m i bit_and;
  in_or = exec_binary-IsOutcome m i bit_or;
  in_not = exec_not-IsOutcome m i;
  in_mov = exec_mov-IsOutcome m i input;
  in_cmp = exec_cmp-IsOutcome m i;
  in_jmp = exec_jmp-IsOutcome m i;
  in_je = exec_branch-IsOutcome m i _;
  in_jg = exec_branch-IsOutcome m i _;
  in_jl = exec_branch-IsOutcome m i _;
  in_default = invalid-IsOutcome m i;
})
