-- ===== src/Assembler/Passes.antt =====
-- userspace/src/assembler.c: the two passes of `parse_assembly`. The file is the list of the lines that
-- `fgets` gives; the allocations are taken to succeed.
pub mod Numbers
pub mod Second
pub mod Build
use rpi_cpu_emulator_linux_d.Base.{ℕ, zero, suc, ◌+◌, ◌-◌, ◌*◌, Bool, true, false, ◌&&◌, ◌||◌, not}
use rpi_cpu_emulator_linux_d.Base.{Option, none, some, List, [], ◌∷◌, ◌++◌, ◌==◌, if◌then◌else◌}
use rpi_cpu_emulator_linux_d.Uapi.{Instruction, mmio_halt}
use rpi_cpu_emulator_linux_d.Uapi.Opcode
use rpi_cpu_emulator_linux_d.Uapi.Mode
use rpi_cpu_emulator_linux_d.Assembler.Text.{
  Text, contains, cut_at, remove_comment, remove_newline, is_empty,
}
use rpi_cpu_emulator_linux_d.Assembler.Labels.{Uthash, put}
use rpi_cpu_emulator_linux_d.Assembler.Parse.{parse_line}

-- `{MMIO_HALT, 0, MOV, DIRECT_STORE}`
abbrev pub halt_instr : Instruction
halt_instr = record {
  operand2 = mmio_halt;
  operand1 = 0;
  opcode = Opcode.mov;
  mode = Mode.direct_store;
}

abbrev pub halt_text : Text
halt_text = b'H' ∷ b'A' ∷ b'L' ∷ b'T' ∷ []

-- A line that the second pass takes for an instruction.
unfoldable pub is_code : Text → Bool
unfolding remove_comment
is_code line =
    not (is_empty line)
    && not (contains b':' (remove_comment line))
    && not (is_empty (remove_comment line))

-- The capacity after the test at the head of the second loop, for `n` instructions.
unfoldable pub grow : ℕ → ℕ → ℕ
grow n capacity =
    if (capacity == 0) || (suc n == capacity)
    then if capacity == 0 then 4 else capacity * 2
    else capacity

-- What the second pass has built: the instructions, their texts, and the capacity of both arrays. The
-- loop has a first round even for an empty file, and it gives the arrays 4 places.
pub record Built : Type 0 where
  pub instructions : List Instruction
  pub texts : List Text
  pub num_instructions : ℕ
  pub capacity : ℕ

abbrev pub nothing_built : Built
nothing_built = record { instructions = []; texts = []; num_instructions = 0; capacity = 4 }

module _ (h : Uthash) where
  -- The first pass, from the number of the next instruction on. The number of a label line goes down
  -- and up again.
  unfoldable pub first_pass : List Text → h.Table → ℕ → h.Table
  unfolding put remove_comment
  first_pass [] labels line_number = labels
  first_pass (line ∷ lines) labels line_number =
      if is_empty line
      then first_pass lines labels line_number
      else if contains b':' (remove_comment line)
      then first_pass lines (put h labels (cut_at b':' (remove_comment line)) line_number)
          line_number
      else first_pass lines labels (suc line_number)

  -- One round of the second loop.
  unfoldable pub second_step : h.Table → Text → Built → Option Built
  unfolding is_code grow
  second_step labels line b =
      let capacity = grow b.num_instructions b.capacity in
      if is_code line
      then elim (parse_line h (remove_comment line) labels) [
        | none ↦ none
        | some i ↦ some (record {
          instructions = b.instructions ++ i ∷ [];
          texts = b.texts ++ remove_newline line ∷ [];
          num_instructions = suc b.num_instructions;
          capacity = capacity;
        })
      ]
      else some (record b { capacity = capacity })

  unfoldable pub second_pass : h.Table → List Text → Built → Option Built
  unfolding second_step
  second_pass labels [] b = some b
  second_pass labels (line ∷ lines) b = elim (second_step labels line b) [
    | none ↦ none
    | some b' ↦ second_pass labels lines b'
  ]

  unfoldable pub parse_assembly : List Text → Option (List Instruction × List Text)
  unfolding first_pass second_pass
  parse_assembly lines = elim (second_pass (first_pass lines h.empty 0) lines nothing_built) [
    | none ↦ none
    | some b ↦ some (b.instructions ++ halt_instr ∷ [], b.texts ++ halt_text ∷ [])
  ]
