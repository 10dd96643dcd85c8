-- ===== src/Userspace/Isa/Decode.antt =====
-- What the encodings of cpu_uapi.h stand for. `none` is an encoding that is refused.
use rpi_cpu_emulator_linux_d.Base.{
  ℕ, zero, suc, ◌≡◌, refl, sym, option_both, arith, Option, none, some, not, ◌==◌, if◌then◌else◌,
  add64, sub64, bit_and, bit_or,
}
use mathlib.Core.Path.{subst}
use rpi_cpu_emulator_linux_d.Uapi.{Instruction, mmio_halt}
use rpi_cpu_emulator_linux_d.Uapi.Opcode
use rpi_cpu_emulator_linux_d.Uapi.Mode
use rpi_cpu_emulator_linux_d.Driver.Cpu.{
  Reg, r0, r1, r2, r3, get_register, is_mmio, is_mmio_input, is_mmio_output,
}
use rpi_cpu_emulator_linux_d.Userspace.Isa.{Source, Op, Internal, Condition}

-- The registers are numbered from 0 to 3.
unfoldable pub register_named : ℕ → Option Reg
register_named zero = some r0
register_named (suc zero) = some r1
register_named (suc (suc zero)) = some r2
register_named (suc (suc (suc zero))) = some r3
register_named (suc (suc (suc (suc n)))) = none

-- The driver numbers them in the same way.
pub register_named-get_register : (n : ℕ) → register_named n ≡ get_register n
unfolding register_named get_register
register_named-get_register zero = refl
register_named-get_register (suc zero) = refl
register_named-get_register (suc (suc zero)) = refl
register_named-get_register (suc (suc (suc zero))) = refl
register_named-get_register (suc (suc (suc (suc n)))) = ground arith

-- To prove a relation between what is done with a register on both sides, case by case.
pub register_both {κ μ ν} :
    {B : Type κ} {C : Type μ} (P : B → C → Type ν) (n : ℕ) {x : B} {y : C} {s : Reg → B}
    {s' : Reg → C}
    → (get_register n ≡ none → P x y)
    → ((r : Reg) → get_register n ≡ some r → P (s r) (s' r))
    → P
        (elim (get_register n) [ none ↦ x | some r ↦ s r ])
        (elim (register_named n) [ none ↦ y | some r ↦ s' r ])
register_both P n {x = x} {y = y} {s = s} {s' = s'} p q =
    subst
      (λ o.
        P (elim (get_register n) [ none ↦ x | some r ↦ s r ]) (elim o [ none ↦ y | some r ↦ s' r ]))
      (sym (register_named-get_register n)) (option_both P (get_register n) p q)

-- An operation on the register of the first operand, with an immediate or a register.
unfoldable pub decode_immediate : (Reg → Source → Internal) → Instruction → Option Op
decode_immediate op i = elim (register_named i.operand1) [
  | none ↦ none
  | some r ↦ some (Op.internal (op r (Source.constant i.operand2)))
]

unfoldable pub decode_register : (Reg → Source → Internal) → Instruction → Option Op
decode_register op i = elim (register_named i.operand1) [
  | none ↦ none
  | some r ↦ elim (register_named i.operand2) [
    | none ↦ none
    | some s ↦ some (Op.internal (op r (Source.register s)))
  ]
]

unfoldable pub decode_binary : (Reg → Source → Internal) → Instruction → Option Op
unfolding decode_immediate decode_register
decode_binary op i =
    if i.mode == Mode.immediate
    then decode_immediate op i
    else if i.mode == Mode.register
    then decode_register op i
    else none

unfoldable pub decode_not : Instruction → Option Op
decode_not i = if not (i.mode == Mode.register) then none else elim (register_named i.operand2) [
  | none ↦ none
  | some r ↦ some (Op.internal (Internal.complement r))
]

unfoldable pub decode_load : Instruction → Option Op
decode_load i =
    if is_mmio i.operand2
    then (if is_mmio_input i.operand2
        then elim (register_named i.operand1) [
          | none ↦ none
          | some r ↦ some (Op.internal (Internal.input r))
        ]
        else none)
    else elim (register_named i.operand1) [
      | none ↦ some Op.crash
      | some r ↦ some (Op.load r i.operand2)
    ]

unfoldable pub decode_store : Instruction → Option Op
decode_store i =
    if is_mmio i.operand2
    then (if i.operand2 == mmio_halt
        then some Op.halt
        else if is_mmio_output i.operand2
        then elim (register_named i.operand1) [
          | none ↦ none
          | some r ↦ some (Op.internal (Internal.output r))
        ]
        else none)
    else elim (register_named i.operand1) [
      | none ↦ some Op.crash
      | some r ↦ some (Op.store r i.operand2)
    ]

unfoldable pub decode_mov : Instruction → Option Op
unfolding decode_immediate decode_register decode_load decode_store
decode_mov i =
    if i.mode == Mode.immediate
    then decode_immediate (Internal.compute (λ _ v. v)) i
    else if i.mode == Mode.register
    then decode_register (Internal.compute (λ _ v. v)) i
    else if i.mode == Mode.direct_load
    then decode_load i
    else if i.mode == Mode.direct_store
    then decode_store i
    else none

abbrev pub decode_jump : Condition → Instruction → Option Op
decode_jump condition i = some (Op.internal (Internal.jump condition i.operand2))

unfoldable pub decode : Instruction → Option Op
unfolding decode_binary decode_not decode_mov
decode i =
    if i.opcode == Opcode.add
    then decode_binary (Internal.compute add64) i
    else if i.opcode == Opcode.sub
    then decode_binary (Internal.compute sub64) i
    else if i.opcode == Opcode.and
    then decode_binary (Internal.compute bit_and) i
    else if i.opcode == Opcode.or
    then decode_binary (Internal.compute bit_or) i
    else if i.opcode == Opcode.not
    then decode_not i
    else if i.opcode == Opcode.mov
    then decode_mov i
    else if i.opcode == Opcode.cmp
    then decode_binary Internal.compare i
    else if i.opcode == Opcode.jmp
    then decode_jump Condition.always i
    else if i.opcode == Opcode.je
    then decode_jump Condition.if_zero i
    else if i.opcode == Opcode.jg
    then decode_jump Condition.if_positive i
    else if i.opcode == Opcode.jl
    then decode_jump Condition.if_negative i
    else none
