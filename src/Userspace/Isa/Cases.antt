-- ===== src/Userspace/Isa/Cases.antt =====
-- cpu_driver/cpu_emulator_driver.c: the cases of `execute_instruction` against the instruction set.
use rpi_cpu_emulator_linux_d.Base.{
  ℕ, ◌^◌, ◌<◌, ◌≡◌, inl, refl, arith, ℤ, Bool, true, false, not, ◌&&◌, Option, none, some, ◌==◌,
  if◌then◌else◌, if_both, add64, sub64, mul64, not64, bit_and, bit_or,
}
use rpi_cpu_emulator_linux_d.Uapi.{Instruction, instr_size}
use rpi_cpu_emulator_linux_d.Uapi.Mode
use rpi_cpu_emulator_linux_d.Uapi.Flag.{zf, sf}
use rpi_cpu_emulator_linux_d.Driver.Cpu.{
  Cpu, Reg, read_reg, has_flag, handle_compare, handle_compare_immediate, handle_compare_register,
  set_flag, clear_flag, is_negative64,
}
use rpi_cpu_emulator_linux_d.Driver.Flags.{handle_compare_bits}
use rpi_cpu_emulator_linux_d.Driver.Exec.Exits.{
  Machine, leave, advance, finish, invalid, exec_immediate, exec_register,
}
use rpi_cpu_emulator_linux_d.Driver.Exec.Alu.{
  store_immediate, store_register, exec_binary, exec_add, exec_sub, exec_and, exec_or, exec_not,
  exec_cmp,
}
use rpi_cpu_emulator_linux_d.Driver.Exec.Jump.{exec_jmp, exec_je, exec_jg, exec_jl}
use rpi_cpu_emulator_linux_d.Userspace.Isa.{
  Op, Internal, Source, Condition, apply, set_reg, next_pc,
}
use rpi_cpu_emulator_linux_d.Userspace.Isa.Decode.{
  register_both, decode_immediate, decode_register, decode_binary, decode_not, decode_jump,
}
use rpi_cpu_emulator_linux_d.Userspace.Isa.Agrees.{core_of, Ends, Agrees}

module _ (level : ℤ) (m : Machine) (i : Instruction) where
  abbrev pub Ok : ℤ × Machine → Option Op → Type 0
  Ok = Agrees level m i

  pub invalid-Ok : Ok (invalid m) none
  unfolding invalid leave
  invalid-Ok = refl

  pub immediate-Ok :
      (op : Reg → Source → Internal) (act : Cpu → Reg → ℕ → Cpu)
      → ((r : Reg)
          → Ends
              (finish m.cpu (record m { cpu = act m.cpu r i.operand2 }))
              (apply level (op r (Source.constant i.operand2)) (core_of m)))
      → Ok (exec_immediate act m i) (decode_immediate op i)
  unfolding exec_immediate decode_immediate
  immediate-Ok op act h = register_both Ok i.operand1 (λ _. invalid-Ok) (λ r _. h r)

  pub register-Ok :
      (op : Reg → Source → Internal) (act : Cpu → Reg → Reg → Cpu)
      → ((r s : Reg)
          → Ends
              (finish m.cpu (record m { cpu = act m.cpu r s }))
              (apply level (op r (Source.register s)) (core_of m)))
      → Ok (exec_register act m i) (decode_register op i)
  unfolding exec_register decode_register
  register-Ok op act h =
      register_both Ok i.operand1 (λ _. invalid-Ok)
        (λ r _. register_both Ok i.operand2 (λ _. invalid-Ok) (λ s _. h r s))

  pub compute-Ends :
      (f : ℕ → ℕ → ℕ) (r : Reg) (v : ℕ)
      → Ends
          (finish m.cpu (record m { cpu = store_immediate f m.cpu r v }))
          (some (set_reg (core_of m) r (f (read_reg m.cpu.regs r) v)))
  unfolding finish advance store_immediate has_flag
  compute-Ends f r v = (inl refl, refl)

  binary-Ok : (f : ℕ → ℕ → ℕ) → Ok (exec_binary f m i) (decode_binary (Internal.compute f) i)
  unfolding exec_binary decode_binary apply store_register
  binary-Ok f =
      if_both Ok (i.mode == Mode.immediate)
        (λ _.
          immediate-Ok (Internal.compute f) (store_immediate f) (λ r. compute-Ends f r i.operand2))
        (λ _.
          if_both Ok (i.mode == Mode.register)
            (λ _.
              register-Ok (Internal.compute f) (store_register f)
                (λ r s. compute-Ends f r (read_reg m.cpu.regs s)))
            (λ _. invalid-Ok))

  pub binaries-Ok :
      Ok (exec_add m i) (decode_binary (Internal.compute add64) i)
      × Ok (exec_sub m i) (decode_binary (Internal.compute sub64) i)
      × Ok (exec_and m i) (decode_binary (Internal.compute bit_and) i)
      × Ok (exec_or m i) (decode_binary (Internal.compute bit_or) i)
  unfolding exec_add exec_sub exec_and exec_or
  binaries-Ok = (binary-Ok add64, binary-Ok sub64, binary-Ok bit_and, binary-Ok bit_or)

  pub not-Ok : Ok (exec_not m i) (decode_not i)
  unfolding exec_not decode_not apply
  not-Ok =
      if_both Ok (not (i.mode == Mode.register)) (λ _. invalid-Ok)
        (λ _.
          register_both Ok i.operand2 (λ _. invalid-Ok) (λ r _. compute-Ends (λ v _. not64 v) r 0))

  compare-others :
      (result : ℕ)
      → ((handle_compare m.cpu result).regs ≡ m.cpu.regs)
        × ((handle_compare m.cpu result).pc ≡ m.cpu.pc)
  unfolding handle_compare set_flag clear_flag
  compare-others result = (ground arith, ground arith)

  compare-Ends :
      (a b : ℕ)
      → m.cpu.fr < 2 ^ 16
      → Ends (finish m.cpu (record m { cpu = handle_compare m.cpu (sub64 a b) })) (
          some (record (core_of m) {
            zero = sub64 a b == 0;
            negative = is_negative64 (sub64 a b);
            pc = next_pc (core_of m);
          }))
  unfolding finish advance has_flag
  compare-Ends a b fits =
      let h = handle_compare_bits m.cpu (sub64 a b) fits in
      let (same_regs, same_pc) = compare-others (sub64 a b) in
      (
        inl refl,
        λ t. record {
          regs = same_regs t;
          zero = h.0 t;
          negative = h.1 t;
          pc = add64 (same_pc t) instr_size;
          pin = m.output;
        },
      )

  pub cmp-Ok : m.cpu.fr < 2 ^ 16 → Ok (exec_cmp m i) (decode_binary Internal.compare i)
  unfolding exec_cmp decode_binary apply handle_compare_immediate handle_compare_register
  cmp-Ok fits =
      if_both Ok (i.mode == Mode.immediate)
        (λ _.
          immediate-Ok Internal.compare handle_compare_immediate
            (λ r. compare-Ends (read_reg m.cpu.regs r) i.operand2 fits))
        (λ _.
          if_both Ok (i.mode == Mode.register)
            (λ _.
              register-Ok Internal.compare handle_compare_register
                (λ r s. compare-Ends (read_reg m.cpu.regs r) (read_reg m.cpu.regs s) fits))
            (λ _. invalid-Ok))

  pub jmp-Ok : Ok (exec_jmp m i) (decode_jump Condition.always i)
  unfolding exec_jmp apply leave has_flag
  jmp-Ok = (inl refl, refl)

  branch-Ends :
      (b : Bool)
      → Ends (if b then exec_jmp m i else finish m.cpu m) (
          some (record (core_of m) {
            pc = if b then mul64 i.operand2 instr_size else next_pc (core_of m);
          }))
  unfolding exec_jmp leave finish advance has_flag
  branch-Ends true = (inl refl, refl)
  branch-Ends false = (inl refl, refl)

  pub branches-Ok :
      Ok (exec_je m i) (decode_jump Condition.if_zero i)
      × Ok (exec_jg m i) (decode_jump Condition.if_positive i)
      × Ok (exec_jl m i) (decode_jump Condition.if_negative i)
  unfolding exec_je exec_jg exec_jl apply
  branches-Ok = (
    branch-Ends (has_flag zf m.cpu),
    branch-Ends (not (has_flag sf m.cpu) && not (has_flag zf m.cpu)),
    branch-Ends (has_flag sf m.cpu),
  )
