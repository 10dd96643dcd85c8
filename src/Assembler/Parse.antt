-- ===== src/Assembler/Parse.antt =====
-- userspace/src/assembler.c: `parse_line`. `none` is an access through NULL, which C leaves undefined.
pub mod Fits
use rpi_cpu_emulator_linux_d.Base.{ℕ, ◌-◌, ◌^◌, Bool, false, ◌&&◌}
use rpi_cpu_emulator_linux_d.Base.{
  Option, none, some, [], ◌∷◌, ◌==◌, if◌then◌else◌, u8, length, take,
}
use rpi_cpu_emulator_linux_d.Uapi.{Instruction}
use rpi_cpu_emulator_linux_d.Uapi.Opcode
use rpi_cpu_emulator_linux_d.Uapi.Mode
use rpi_cpu_emulator_linux_d.Assembler.Text.{Text, text_eq, split_by_char}
use rpi_cpu_emulator_linux_d.Assembler.Number.{strtoull, parse_int}
use rpi_cpu_emulator_linux_d.Assembler.Labels.{Uthash, get}

-- The first comma becomes a space.
unfoldable pub replace_comma : Text → Text
replace_comma [] = []
replace_comma (c ∷ cs) = let rest = replace_comma cs in if c == b',' then b' ' ∷ cs else c ∷ rest

-- The fields before anything is parsed.
abbrev pub blank : Instruction
blank = record { operand2 = 2 ^ 64 - 1; operand1 = 255; opcode = 255; mode = 255 }

-- The opcodes that go on with their operands; an unknown name leaves the opcode as it is.
unfoldable pub operation_opcode : Text → ℕ
operation_opcode s =
    if text_eq s (b'A' ∷ b'D' ∷ b'D' ∷ [])
    then Opcode.add
    else if text_eq s (b'S' ∷ b'U' ∷ b'B' ∷ [])
    then Opcode.sub
    else if text_eq s (b'A' ∷ b'N' ∷ b'D' ∷ [])
    then Opcode.and
    else if text_eq s (b'O' ∷ b'R' ∷ [])
    then Opcode.or
    else if text_eq s (b'N' ∷ b'O' ∷ b'T' ∷ [])
    then Opcode.not
    else if text_eq s (b'M' ∷ b'O' ∷ b'V' ∷ [])
    then Opcode.mov
    else if text_eq s (b'C' ∷ b'M' ∷ b'P' ∷ [])
    then Opcode.cmp
    else 255

-- The opcodes that take a label.
unfoldable pub jump_opcode : Text → Option ℕ
jump_opcode s =
    if text_eq s (b'J' ∷ b'M' ∷ b'P' ∷ [])
    then some Opcode.jmp
    else if text_eq s (b'J' ∷ b'E' ∷ [])
    then some Opcode.je
    else if text_eq s (b'J' ∷ b'G' ∷ [])
    then some Opcode.jg
    else if text_eq s (b'J' ∷ b'L' ∷ [])
    then some Opcode.jl
    else none

unfoldable pub register_number : Text → Option ℕ
register_number s =
    if text_eq s (b'R' ∷ b'0' ∷ [])
    then some Opcode.reg_0
    else if text_eq s (b'R' ∷ b'1' ∷ [])
    then some Opcode.reg_1
    else if text_eq s (b'R' ∷ b'2' ∷ [])
    then some Opcode.reg_2
    else if text_eq s (b'R' ∷ b'3' ∷ [])
    then some Opcode.reg_3
    else none

unfoldable pub ends_with : ℕ → Text → Bool
ends_with c [] = false
ends_with c (d ∷ []) = d == c
ends_with c (d ∷ e ∷ s) = ends_with c (e ∷ s)

-- The text between the brackets of an address.
unfoldable pub bracketed : Text → Option Text
unfolding ends_with
bracketed [] = none
bracketed (c ∷ s) =
    if (c == b'[') && ends_with b']' (c ∷ s) then some (take (length s - 1) s) else none

unfoldable pub parse_operand2 : Text → Instruction → Instruction
unfolding register_number bracketed
parse_operand2 s i = elim (register_number s) [
  | some r ↦ record i { operand2 = r }
  | none ↦ elim (bracketed s) [
    | some inner ↦ record i { mode = Mode.direct_load; operand2 = (strtoull 16 inner).value }
    | none ↦ elim (parse_int s) [
      | some v ↦ record i { mode = Mode.immediate; operand2 = v }
      | none ↦ i
    ]
  ]
]

unfoldable pub parse_operand1 : Text → Instruction → Instruction
unfolding register_number bracketed
parse_operand1 s i = elim (register_number s) [
  | some r ↦ record i { operand1 = r }
  | none ↦ elim (bracketed s) [
    | some inner ↦ record i {
      mode = Mode.direct_store;
      operand1 = u8 i.operand2;
      operand2 = (strtoull 16 inner).value;
    }
    | none ↦ i
  ]
]

-- A mode that no operand has set is REGISTER.
unfoldable pub default_mode : Instruction → Instruction
default_mode i = record i { mode = if i.mode == 255 then Mode.register else i.mode }

-- The part behind the opcodes.
unfoldable pub parse_operands : Option Text → Option Text → Instruction → Option Instruction
unfolding parse_operand1 parse_operand2 default_mode
parse_operands none none i = none
parse_operands none (some operand2) i = some (parse_operand2 operand2 i)
parse_operands (some operand1) none i =
    some (default_mode (parse_operand1 operand1 (parse_operand2 operand1 i)))
parse_operands (some operand1) (some operand2) i =
    some (default_mode (parse_operand1 operand1 (parse_operand2 operand2 i)))

module _ (h : Uthash) where
  -- A label that the table does not have leaves the operand at UINT64_MAX.
  unfoldable pub label_target : h.Table → Text → ℕ
  unfolding get
  label_target labels key = elim (get h labels key) [ none ↦ 2 ^ 64 - 1 | some value ↦ value ]

  unfoldable pub parse_jump : h.Table → Option Text → Option Text → Instruction → Option Instruction
  unfolding label_target
  parse_jump labels none none i = none
  parse_jump labels none (some operand2) i =
      some (record i { mode = Mode.label; operand2 = label_target labels operand2 })
  parse_jump labels (some operand1) operand2 i =
      some (record i { mode = Mode.label; operand2 = label_target labels operand1 })

  unfoldable pub parse_line : Text → h.Table → Option Instruction
  unfolding parse_jump
  parse_line line labels =
      let parts = split_by_char (replace_comma line) b' ' in
      elim (parts.part1) [
        | none ↦ none
        | some operation ↦ elim (jump_opcode operation) [
          | some opcode ↦
              parse_jump labels parts.part2 parts.part3 (record blank { opcode = opcode })
          | none ↦
              let opcode = operation_opcode operation in
              parse_operands parts.part2 parts.part3 (record blank {
                opcode = opcode;
                mode = if opcode == Opcode.not then Mode.register else 255;
              })
        ]
      ]
