-- ===== src/Driver/Branch.antt =====
-- cpu_driver/cpu_emulator_driver.c: `CMP` followed by a conditional jump.
use rpi_cpu_emulator_linux_d.Base.{
  ℕ, ◌+◌, ◌^◌, ◌≤◌, ◌<◌, ◌≡◌, refl, ap, ◌∙◌, arith, ℤ, some, Bool, true, false,
}
use rpi_cpu_emulator_linux_d.Base.{◌==◌, ltb, not, ◌&&◌, if◌then◌else◌, add64, sub64, mul64}
use rpi_cpu_emulator_linux_d.Uapi.{Instruction, instr_size}
use rpi_cpu_emulator_linux_d.Uapi.Opcode
use rpi_cpu_emulator_linux_d.Uapi.Mode
use rpi_cpu_emulator_linux_d.Uapi.Flag.{zf, sf}
use rpi_cpu_emulator_linux_d.Driver.Cpu.{Cpu, Reg, read_reg, get_register, has_flag, handle_compare}
use rpi_cpu_emulator_linux_d.Driver.Cpu.{handle_compare_immediate, handle_compare_register}
use rpi_cpu_emulator_linux_d.Driver.Cpu.{is_negative64}
use rpi_cpu_emulator_linux_d.Driver.Exec.{execute_instruction}
use rpi_cpu_emulator_linux_d.Driver.Exec.Exits.{Machine, advance, exec_immediate, exec_register}
use rpi_cpu_emulator_linux_d.Driver.Exec.Alu.{exec_cmp}
use rpi_cpu_emulator_linux_d.Driver.Exec.Jump.{exec_jmp, exec_je, exec_jg, exec_jl}
use rpi_cpu_emulator_linux_d.Driver.Flags.{handle_compare_bits}
use rpi_cpu_emulator_linux_d.Driver.Valid.{IsValid}

-- `i` is a `CMP` of the values `a` and `b`.
pub data Compares (c : Cpu) (i : Instruction) (a b : ℕ) : Type 0 where
  with_immediate :
      (r : Reg)
      → i.opcode ≡ Opcode.cmp
      → i.mode ≡ Mode.immediate
      → get_register i.operand1 ≡ some r
      → a ≡ read_reg c.regs r
      → b ≡ i.operand2
      → Compares c i a b
  with_register :
      (r s : Reg)
      → i.opcode ≡ Opcode.cmp
      → i.mode ≡ Mode.register
      → get_register i.operand1 ≡ some r
      → get_register i.operand2 ≡ some s
      → a ≡ read_reg c.regs r
      → b ≡ read_reg c.regs s
      → Compares c i a b

-- Where an instruction leads, executed on `m`.
abbrev pub pc_after : ℤ → Machine → Instruction → ℕ
pc_after input m i = (execute_instruction input m i).1.cpu.pc

abbrev pub jump : ℕ → ℕ → Instruction
jump opcode target = record {
  operand2 = target;
  operand1 = 255;
  opcode = opcode;
  mode = Mode.label;
}

-- The next instruction, or the one that a label stands for.
abbrev pub branch : Cpu → Bool → ℕ → ℕ
branch c taken target = if taken then mul64 target instr_size else add64 c.pc instr_size

execute-cmp :
    (input : ℤ) (m : Machine) (i : Instruction)
    → i.opcode ≡ Opcode.cmp
    → execute_instruction input m i ≡ exec_cmp m i
unfolding execute_instruction
execute-cmp input m i e = rw (e, execute_instruction) refl

jumps :
    (input : ℤ) (m : Machine) (target : ℕ)
    → (pc_after input m (jump Opcode.je target) ≡ branch m.cpu (has_flag zf m.cpu) target)
      × (pc_after input m (jump Opcode.jg target)
          ≡ branch m.cpu (not (has_flag sf m.cpu) && not (has_flag zf m.cpu)) target)
      × (pc_after input m (jump Opcode.jl target) ≡ branch m.cpu (has_flag sf m.cpu) target)
unfolding execute_instruction exec_je exec_jg exec_jl
jumps input m target = (ground arith, ground arith, ground arith)

-- Whether a jump with the opcode is taken.
abbrev pub taken : ℕ → Cpu → Bool
taken o c =
    if o == Opcode.je
    then has_flag zf c
    else if o == Opcode.jg
    then not (has_flag sf c) && not (has_flag zf c)
    else if o == Opcode.jl
    then has_flag sf c
    else true

pub jump_taken :
    (input : ℤ) (m : Machine) (o target : ℕ)
    → Opcode.jmp ≤ o
    → o ≤ Opcode.jl
    → pc_after input m (jump o target) ≡ branch m.cpu (taken o m.cpu) target
unfolding execute_instruction exec_jmp exec_je exec_jg exec_jl
jump_taken input m o target lo hi = ground arith

compared :
    (input : ℤ) (m : Machine) (i : Instruction) (a b : ℕ)
    → Compares m.cpu i a b
    → (execute_instruction input m i).1.cpu ≡ advance (handle_compare m.cpu (sub64 a b))
unfolding exec_cmp exec_immediate exec_register handle_compare_immediate handle_compare_register
compared input m i a b (with_immediate r o e f p q) = ground (arith, execute-cmp input m i o)
compared input m i a b (with_register r s o e f g p q) = ground (arith, execute-cmp input m i o)

has_flag-advance : (f : ℕ) (c : Cpu) → has_flag f (advance c) ≡ has_flag f c
unfolding has_flag advance
has_flag-advance f c = refl

-- The tests on the wrapped difference of two words of one sign.
module _ {a b : ℕ} (ha : a < 2 ^ 64) (hb : b < 2 ^ 64)
    (same : is_negative64 a ≡ is_negative64 b) where
  is_zero-sub64 : (sub64 a b == 0) ≡ (a == b)
  is_zero-sub64 = ground arith

  is_negative-sub64 : is_negative64 (sub64 a b) ≡ ltb a b
  is_negative-sub64 = ground arith

  is_positive-sub64 : (not (is_negative64 (sub64 a b)) && not (sub64 a b == 0)) ≡ ltb b a
  is_positive-sub64 = ground arith

-- The flags that a comparison leaves, and where the next jump leads.
module _ (input input' : ℤ) (m : Machine) (i : Instruction) (a b target : ℕ) (v : IsValid m.cpu)
    (cmp : Compares m.cpu i a b) where
  after : Machine
  after = (execute_instruction input m i).1

  flags_after :
      (has_flag zf after.cpu ≡ (sub64 a b == 0))
      × (has_flag sf after.cpu ≡ is_negative64 (sub64 a b))
  unfolding after
  flags_after =
      let d : Cpu = handle_compare m.cpu (sub64 a b) in
      rw (compared input m i a b cmp, has_flag-advance zf d, has_flag-advance sf d)
        (let h = handle_compare_bits m.cpu (sub64 a b) v.fr_fits in (h.0, h.1))

  jumps_after :
      (pc_after input' after (jump Opcode.je target) ≡ branch after.cpu (sub64 a b == 0) target)
      × (pc_after input' after (jump Opcode.jg target)
          ≡ branch after.cpu (not (is_negative64 (sub64 a b)) && not (sub64 a b == 0)) target)
      × (pc_after input' after (jump Opcode.jl target)
          ≡ branch after.cpu (is_negative64 (sub64 a b)) target)
  jumps_after = rw (← flags_after.0, ← flags_after.1) (jumps input' after target)

  -- A comparison of two 64-bit words of the same sign (the top bit of both is set, or of neither),
  -- and then a conditional jump: JE goes to its label exactly if the words are equal, JG exactly if
  -- the first is the greater, JL exactly if it is the smaller. Otherwise the next instruction
  -- follows.
  pub cmp_then_jump :
      a < 2 ^ 64
      → b < 2 ^ 64
      → is_negative64 a ≡ is_negative64 b
      → let n = (execute_instruction input m i).1 in
        (pc_after input' n (jump Opcode.je target) ≡ branch n.cpu (a == b) target)
        × (pc_after input' n (jump Opcode.jg target) ≡ branch n.cpu (ltb b a) target)
        × (pc_after input' n (jump Opcode.jl target) ≡ branch n.cpu (ltb a b) target)
  unfolding after
  cmp_then_jump ha hb same =
      rw
        (← is_zero-sub64 ha hb same, ← is_negative-sub64 ha hb same, ← is_positive-sub64 ha hb same)
        jumps_after

  -- Where the signs differ and the difference overflows, the order is lost: for a negative `a`, a
  -- nonnegative `b` and a true difference below -2 ^ 63, JG is taken and JL is not.
  pub cmp_overflow :
      a < 2 ^ 64
      → 2 ^ 63 ≤ a
      → b < 2 ^ 63
      → a < b + 2 ^ 63
      → let n = (execute_instruction input m i).1 in
        (pc_after input' n (jump Opcode.jg target) ≡ branch n.cpu true target)
        × (pc_after input' n (jump Opcode.jl target) ≡ branch n.cpu false target)
  unfolding after
  cmp_overflow ha neg hb over = (
    jumps_after.1
        ∙ ap (λ t. branch after.cpu t target)
            {x = not (is_negative64 (sub64 a b)) && not (sub64 a b == 0)} {y = true} (ground arith),
    jumps_after.2
        ∙ ap (λ t. branch after.cpu t target) {x = is_negative64 (sub64 a b)} {y = false}
            (ground arith),
  )
