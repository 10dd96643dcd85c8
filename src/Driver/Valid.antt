-- ===== src/Driver/Valid.antt =====
-- cpu_driver/cpu_emulator_driver.c: every field of the processor stays in its C type's range, and the
-- address that waits for userspace stays below the memory-mapped ones.
use rpi_cpu_emulator_linux_d.Base.{
  ℕ, ◌^◌, ◌<◌, arith, ℤ, to_u8-lt, to_u8, Option-cases, inl, inr, bit_and, bit_or,
}
use rpi_cpu_emulator_linux_d.Base.{bit_or-lt_pow, bit_and-le, add64, sub64, not64}
use rpi_cpu_emulator_linux_d.Uapi.{Instruction}
use rpi_cpu_emulator_linux_d.Driver.Cpu.{Cpu, Regs, Reg, r0, r1, r2, r3, read_reg, write_reg}
use rpi_cpu_emulator_linux_d.Driver.Cpu.{mmio_start, set_flag, clear_flag, handle_compare}
use rpi_cpu_emulator_linux_d.Driver.Cpu.{handle_compare_immediate, handle_compare_register}
use rpi_cpu_emulator_linux_d.Driver.Cpu.{is_mmio, get_register}
use rpi_cpu_emulator_linux_d.Driver.Exec.{execute_instruction}
use rpi_cpu_emulator_linux_d.Driver.Cases.{execute_rule}
use rpi_cpu_emulator_linux_d.Driver.Exec.Exits.{Machine, invalid, exec_immediate, exec_register}
use rpi_cpu_emulator_linux_d.Driver.Exec.Alu.{store_immediate, store_register, exec_binary}
use rpi_cpu_emulator_linux_d.Driver.Exec.Alu.{
  exec_add, exec_sub, exec_and, exec_or, exec_not, exec_cmp,
}
use rpi_cpu_emulator_linux_d.Driver.Exec.Mov.{exec_load, exec_store, exec_mov}
use rpi_cpu_emulator_linux_d.Driver.Exec.Jump.{exec_jmp, exec_je, exec_jg, exec_jl}

pub record FitsRegs (s : Regs) : Type 0 where
  pub fits0 : s.reg0 < 2 ^ 64
  pub fits1 : s.reg1 < 2 ^ 64
  pub fits2 : s.reg2 < 2 ^ 64
  pub fits3 : s.reg3 < 2 ^ 64

pub record IsValid (c : Cpu) : Type 0 where
  pub regs_fit : FitsRegs c.regs
  pub pc_fits : c.pc < 2 ^ 64
  pub fr_fits : c.fr < 2 ^ 16
  pub addr_below_mmio : c.pending_mem_addr < mmio_start
  pub idx_fits : c.pending_reg_idx < 256
  pub read_fits : c.pending_mmio_read < 256

-- The fields of an instruction fit `__u64` and `__u8`.
pub record FitsInstruction (i : Instruction) : Type 0 where
  pub operand2_fits : i.operand2 < 2 ^ 64
  pub operand1_fits : i.operand1 < 256
  pub opcode_fits : i.opcode < 256
  pub mode_fits : i.mode < 256

pub read_reg-lt : {s : Regs} (r : Reg) → FitsRegs s → read_reg s r < 2 ^ 64
unfolding read_reg
read_reg-lt r0 h = h.fits0
read_reg-lt r1 h = h.fits1
read_reg-lt r2 h = h.fits2
read_reg-lt r3 h = h.fits3

pub write_reg-FitsRegs :
    {s : Regs} (r : Reg) (v : ℕ) → FitsRegs s → v < 2 ^ 64 → FitsRegs (write_reg s r v)
unfolding write_reg
write_reg-FitsRegs r0 v h lt = omega arith
write_reg-FitsRegs r1 v h lt = omega arith
write_reg-FitsRegs r2 v h lt = omega arith
write_reg-FitsRegs r3 v h lt = omega arith

handle_compare-IsValid : (c : Cpu) (result : ℕ) → IsValid c → IsValid (handle_compare c result)
unfolding handle_compare set_flag clear_flag
handle_compare-IsValid c result v = ground arith

-- The two shared branches keep the invariant if what they do to the processor does.
exec_immediate-IsValid :
    (act : Cpu → Reg → ℕ → Cpu) (m : Machine) (i : Instruction)
    → IsValid m.cpu
    → ((r : Reg) → IsValid (act m.cpu r i.operand2))
    → IsValid (exec_immediate act m i).1.cpu
unfolding exec_immediate
exec_immediate-IsValid act m i v keep = elim (Option-cases (get_register i.operand1)) [
  | inl e ↦ ground (arith, e)
  | inr (r, e) ↦ ground (arith, e, keep r)
]

exec_register-IsValid :
    (act : Cpu → Reg → Reg → Cpu) (m : Machine) (i : Instruction)
    → IsValid m.cpu
    → ((r s : Reg) → IsValid (act m.cpu r s))
    → IsValid (exec_register act m i).1.cpu
unfolding exec_register
exec_register-IsValid act m i v keep = elim (Option-cases (get_register i.operand1)) [
  | inl e ↦ ground (arith, e)
  | inr (r, e) ↦ elim (Option-cases (get_register i.operand2)) [
    | inl e' ↦ ground (arith, e, e')
    | inr (s, e') ↦ ground (arith, e, e', keep r s)
  ]
]

-- A binary operation whose result fits the register.
abbrev Fits64 : (ℕ → ℕ → ℕ) → Type 0
Fits64 op = (a b : ℕ) → a < 2 ^ 64 → b < 2 ^ 64 → op a b < 2 ^ 64

module _ (m : Machine) (i : Instruction) (v : IsValid m.cpu) (w : FitsInstruction i) where
  module _ (op : ℕ → ℕ → ℕ) (op_fits : Fits64 op) where
    store-IsValid : (r : Reg) (x : ℕ) → x < 2 ^ 64 → IsValid (store_immediate op m.cpu r x)
    unfolding store_immediate
    store-IsValid r x lt = ground (
      arith,
      read_reg-lt r v.regs_fit,
      op_fits (read_reg m.cpu.regs r) x,
      write_reg-FitsRegs r (op (read_reg m.cpu.regs r) x) v.regs_fit,
    )

    store_register-IsValid : (r s : Reg) → IsValid (store_register op m.cpu r s)
    unfolding store_register
    store_register-IsValid r s = store-IsValid r (read_reg m.cpu.regs s) (read_reg-lt s v.regs_fit)

    exec_stores-IsValid :
        IsValid (exec_immediate (store_immediate op) m i).1.cpu
        × IsValid (exec_register (store_register op) m i).1.cpu
    exec_stores-IsValid = (
      exec_immediate-IsValid _ m i v (λ r. store-IsValid r i.operand2 w.operand2_fits),
      exec_register-IsValid _ m i v store_register-IsValid,
    )

    exec_binary-IsValid : IsValid (exec_binary op m i).1.cpu
    unfolding exec_binary
    exec_binary-IsValid = ground (arith, exec_stores-IsValid)

  exec_not-IsValid : IsValid (exec_not m i).1.cpu
  unfolding exec_not
  exec_not-IsValid = elim (Option-cases (get_register i.operand2)) [
    | inl e ↦ ground (arith, e)
    | inr (r, e) ↦ ground (arith, e, store-IsValid (λ x _. not64 x) (λ a b p q. omega arith) r 0)
  ]

  exec_cmp-IsValid : IsValid (exec_cmp m i).1.cpu
  unfolding exec_cmp
  exec_cmp-IsValid = ground (
    arith,
    exec_immediate-IsValid handle_compare_immediate m i v (λ r. compare_immediate r),
    exec_register-IsValid handle_compare_register m i v (λ r s. compare_register r s),
  )
    where
      compare_immediate : (r : Reg) → IsValid (handle_compare_immediate m.cpu r i.operand2)
      compare_immediate r = unfold handle_compare_immediate in handle_compare-IsValid m.cpu _ v

      compare_register : (r s : Reg) → IsValid (handle_compare_register m.cpu r s)
      compare_register r s = unfold handle_compare_register in handle_compare-IsValid m.cpu _ v

  exec_load-IsValid : (input : ℤ) → IsValid (exec_load input m i).1.cpu
  unfolding exec_load is_mmio
  exec_load-IsValid input = elim (Option-cases (get_register i.operand1)) [
    | inl e ↦ ground (arith, e)
    | inr (r, e) ↦ ground (arith, e, to_u8-lt input, write_reg-FitsRegs r (to_u8 input) v.regs_fit)
  ]

  exec_store-IsValid : IsValid (exec_store m i).1.cpu
  unfolding exec_store is_mmio
  exec_store-IsValid = elim (Option-cases (get_register i.operand1)) [
    | inl e ↦ ground (arith, e)
    | inr (r, e) ↦ ground (arith, e)
  ]

  exec_mov-IsValid : (input : ℤ) → IsValid (exec_mov input m i).1.cpu
  unfolding exec_mov
  exec_mov-IsValid input = ground (
    arith,
    exec_stores-IsValid (λ _ x. x) (λ a b p q. q),
    exec_load-IsValid input,
    exec_store-IsValid,
  )

  exec_jump-IsValid :
      IsValid (exec_jmp m i).1.cpu
      × IsValid (exec_je m i).1.cpu
      × IsValid (exec_jg m i).1.cpu
      × IsValid (exec_jl m i).1.cpu
  unfolding exec_jmp exec_je exec_jg exec_jl
  exec_jump-IsValid = (ground arith, ground arith, ground arith, ground arith)

bit_or-Fits64 : Fits64 bit_or
bit_or-Fits64 a b p q = bit_or-lt_pow 64 a b p q

bit_and-Fits64 : Fits64 bit_and
bit_and-Fits64 a b p q = omega (arith, bit_and-le a b)

-- Whatever the instruction and the level of the input pin, `execute_instruction` keeps every field
-- of a valid processor in its type's range, and the waiting address below the memory-mapped ones.
pub execute-IsValid :
    (input : ℤ) (m : Machine) (i : Instruction)
    → IsValid m.cpu
    → FitsInstruction i
    → IsValid (execute_instruction input m i).1.cpu
unfolding invalid
execute-IsValid input m i v w =
    execute_rule (λ r. IsValid r.1.cpu) input m i
      (record {
        in_add = unfold exec_add in exec_binary-IsValid m i v w add64 (λ a b p q. omega arith);
        in_sub = unfold exec_sub in exec_binary-IsValid m i v w sub64 (λ a b p q. omega arith);
        in_and = unfold exec_and in exec_binary-IsValid m i v w bit_and bit_and-Fits64;
        in_or = unfold exec_or in exec_binary-IsValid m i v w bit_or bit_or-Fits64;
        in_not = exec_not-IsValid m i v w;
        in_mov = exec_mov-IsValid m i v w input;
        in_cmp = exec_cmp-IsValid m i v w;
        in_jmp = (exec_jump-IsValid m i v w).0;
        in_je = (exec_jump-IsValid m i v w).1;
        in_jg = (exec_jump-IsValid m i v w).2;
        in_jl = (exec_jump-IsValid m i v w).3;
        in_default = v;
      })
