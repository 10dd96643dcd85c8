-- ===== src/Userspace/Isa/Moves.antt =====
-- cpu_driver/cpu_emulator_driver.c: `MOV` against the instruction set.
use rpi_cpu_emulator_linux_d.Base.{
  ltb-zero, ==_iff, ◌≡◌, inl, inr, refl, sym, arith, ℤ, false, Option, none, some, ◌==◌, if_both,
  to_u8, ltb-zero, ==_iff,
}
use rpi_cpu_emulator_linux_d.Uapi.{Instruction, mmio_halt}
use rpi_cpu_emulator_linux_d.Uapi.Opcode
use rpi_cpu_emulator_linux_d.Uapi.Mode
use rpi_cpu_emulator_linux_d.Uapi.Status
use rpi_cpu_emulator_linux_d.Driver.Cpu.{
  Reg, read_reg, get_register, has_flag, is_mmio, is_mmio_input, is_mmio_output,
}
use rpi_cpu_emulator_linux_d.Driver.Exec.Exits.{Machine, leave, advance, finish, invalid}
use rpi_cpu_emulator_linux_d.Driver.Exec.Alu.{store_immediate, store_register}
use rpi_cpu_emulator_linux_d.Driver.Exec.Mov.{
  exec_load, exec_store, exec_mov, read_input, write_output, await_memory,
}
use rpi_cpu_emulator_linux_d.Userspace.Isa.{Op, Internal, apply}
use rpi_cpu_emulator_linux_d.Userspace.Isa.Decode.{
  register_named, register_named-get_register, register_both, decode_load, decode_store, decode_mov,
}
use rpi_cpu_emulator_linux_d.Userspace.Isa.Agrees.{Ends, Agrees}
use rpi_cpu_emulator_linux_d.Userspace.Isa.Cases

module _ (level : ℤ) (m : Machine) (i : Instruction) where
  abbrev Ok : ℤ × Machine → Option Op → Type 0
  Ok = Agrees level m i

  load-Ok :
      i.opcode ≡ Opcode.mov → i.mode ≡ Mode.direct_load → Ok (exec_load level m i) (decode_load i)
  unfolding exec_load decode_load is_mmio apply read_input leave advance has_flag
  load-Ok mov mode =
      if_both Ok (is_mmio i.operand2)
        (λ _.
          if_both Ok (is_mmio_input i.operand2)
            (λ _.
              register_both Ok i.operand1 (λ _. Cases.invalid-Ok level m i)
                (λ r _. rw (ltb-zero (to_u8 level)) (inr refl, refl)))
            (λ _. Cases.invalid-Ok level m i))
        (λ low.
          option_access low (register_named i.operand1)
            (sym (register_named-get_register i.operand1)))
    where
      option_access :
          is_mmio i.operand2 ≡ false
          → (o : Option Reg) → get_register i.operand1 ≡ o
          → Ok
              (await_memory Status.pending_mem_read m i)
              (elim o [ none ↦ some Op.crash | some r ↦ some (Op.load r i.operand2) ])
      option_access low none e =
          inl
            (record { is_mov = mov; has_mode = mode; below_mmio = ground (arith, low); names = e })
      option_access low (some r) e = (
        record { is_mov = mov; has_mode = mode; below_mmio = ground (arith, low); names = e },
        refl,
      )

  write_output-Ok :
      (r : Reg)
      → Ok (write_output m (read_reg m.cpu.regs r)) (some (Op.internal (Internal.output r)))
  unfolding write_output apply finish advance has_flag invalid leave
  write_output-Ok r =
      if_both Ends (read_reg m.cpu.regs r == 0) (λ _. (inl refl, refl))
        (λ _. if_both Ends (read_reg m.cpu.regs r == 1) (λ _. (inl refl, refl)) (λ _. refl))

  store-Ok :
      i.opcode ≡ Opcode.mov → i.mode ≡ Mode.direct_store → Ok (exec_store m i) (decode_store i)
  unfolding exec_store decode_store is_mmio leave
  store-Ok mov mode =
      if_both Ok (is_mmio i.operand2)
        (λ _.
          if_both Ok (i.operand2 == mmio_halt) (λ _. refl)
            (λ _.
              if_both Ok (is_mmio_output i.operand2)
                (λ _.
                  register_both Ok i.operand1 (λ _. Cases.invalid-Ok level m i)
                    (λ r _. write_output-Ok r))
                (λ _. Cases.invalid-Ok level m i)))
        (λ low.
          option_access low (register_named i.operand1)
            (sym (register_named-get_register i.operand1)))
    where
      option_access :
          is_mmio i.operand2 ≡ false
          → (o : Option Reg) → get_register i.operand1 ≡ o
          → Ok
              (await_memory Status.pending_mem_write m i)
              (elim o [ none ↦ some Op.crash | some r ↦ some (Op.store r i.operand2) ])
      option_access low none e =
          inr
            (record { is_mov = mov; has_mode = mode; below_mmio = ground (arith, low); names = e })
      option_access low (some r) e = (
        record { is_mov = mov; has_mode = mode; below_mmio = ground (arith, low); names = e },
        refl,
      )

  pub mov-Ok : i.opcode ≡ Opcode.mov → Ok (exec_mov level m i) (decode_mov i)
  unfolding exec_mov decode_mov apply store_register
  mov-Ok mov =
      if_both Ok (i.mode == Mode.immediate)
        (λ _.
          Cases.immediate-Ok level m i (Internal.compute (λ _ v. v)) (store_immediate (λ _ v. v))
            (λ r. Cases.compute-Ends level m i (λ _ v. v) r i.operand2))
        (λ _.
          if_both Ok (i.mode == Mode.register)
            (λ _.
              Cases.register-Ok level m i (Internal.compute (λ _ v. v)) (store_register (λ _ v. v))
                (λ r s. Cases.compute-Ends level m i (λ _ v. v) r (read_reg m.cpu.regs s)))
            (λ _.
              if_both Ok (i.mode == Mode.direct_load)
                (λ l. load-Ok mov ((==_iff i.mode Mode.direct_load).0 l))
                (λ _.
                  if_both Ok (i.mode == Mode.direct_store)
                    (λ s. store-Ok mov ((==_iff i.mode Mode.direct_store).0 s))
                    (λ _. Cases.invalid-Ok level m i))))
