-- ===== src/Assembler/Jumps.antt =====
-- userspace/src/assembler.c and cpu_driver/cpu_emulator_driver.c: where a jump to a label leads.
use rpi_cpu_emulator_linux_d.Base.{ℕ, ◌+◌, ◌*◌, ◌≤◌, ◌≡◌, inl, inr, refl, ap, ◌∙◌, arith}
use rpi_cpu_emulator_linux_d.Base.{
  true, Option, none, some, Option-cases, List, ◌∷◌, ◌++◌, length, take, lt_of_get_elem?,
  if◌then◌else◌, mul64, add64, ℤ,
}
use rpi_cpu_emulator_linux_d.Uapi.{Instruction, instr_size}
use rpi_cpu_emulator_linux_d.Driver.Exec.Exits.{Machine}
use rpi_cpu_emulator_linux_d.Driver.Branch.{jump, pc_after, taken, jump_taken}
use rpi_cpu_emulator_linux_d.Userspace.Memory.{Memory, mem_size, fetch_next}
use rpi_cpu_emulator_linux_d.Userspace.Image.{store_machine_code}
use rpi_cpu_emulator_linux_d.Assembler.Text.{Text, remove_comment, split_by_char, Parts}
use rpi_cpu_emulator_linux_d.Assembler.Labels.{Uthash, get, key_length}
use rpi_cpu_emulator_linux_d.Assembler.Parse.{
  replace_comma, jump_opcode, parse_line, parse_jump, label_target,
}
use rpi_cpu_emulator_linux_d.Assembler.Passes.{is_code, first_pass, parse_assembly}
use rpi_cpu_emulator_linux_d.Assembler.Passes.Numbers.{is_label, label_of, NotDefined}
use rpi_cpu_emulator_linux_d.Assembler.Passes.Build.{parse_assembly-label}
use rpi_cpu_emulator_linux_d.Assembler.Loaded.{parse_assembly-fetch}

-- The operand of a line that has one: split_by_char gives the last part as the third.
abbrev pub operand_of : Parts → Option Text
operand_of parts = elim (parts.part2) [ none ↦ parts.part3 | some first ↦ some first ]

module _ (h : Uthash) where
  parse_line-jump :
      (text name operation : Text) (labels : h.Table) (o k : ℕ)
      → (split_by_char (replace_comma text) b' ').part1 ≡ some operation
      → jump_opcode operation ≡ some o
      → operand_of (split_by_char (replace_comma text) b' ') ≡ some name
      → h.find labels name ≡ some k
      → parse_line h text labels ≡ some (jump o k)
  unfolding parse_line parse_jump label_target get
  parse_line-jump text name operation labels o k p1 op p2 found =
      let parts = split_by_char (replace_comma text) b' ' in
      elim (Option-cases parts.part2) [
        | inl single ↦
            let third : parts.part3 ≡ some name = rw single at p2 in
            rw (parse_line, p1, op, single, third, label_target, found) refl
        | inr (first, double) ↦
            let same : parts.part2 ≡ some name = double ∙ (rw double at p2) in
            rw (parse_line, p1, op, same, label_target, found) refl
      ]

  -- A program that is assembled and fits the memory, with a label line, a line of code behind it, no
  -- later definition of the label, and a name that fits the table; and a line that is a jump to the
  -- label. The jump is assembled to an instruction that, executed in any state, leads to the next
  -- instruction if it is not taken, and otherwise to an address at which the client fetches the
  -- instruction that the line of code behind the label stands for.
  pub parse_assembly-jump :
      (before after : List Text) (line code text operation : Text) (is : List Instruction)
      (ts : List Text) (m : Memory) (o : ℕ) (input : ℤ) (machine : Machine)
      → parse_assembly h (before ++ line ∷ code ∷ after) ≡ some (is, ts)
      → length is * instr_size + instr_size ≤ mem_size
      → is_label line ≡ true
      → is_code code ≡ true
      → take key_length (label_of line) ≡ label_of line
      → NotDefined (label_of line) after
      → (split_by_char (replace_comma text) b' ').part1 ≡ some operation
      → jump_opcode operation ≡ some o
      → operand_of (split_by_char (replace_comma text) b' ') ≡ some (label_of line)
      → let labels = first_pass h (before ++ line ∷ code ∷ after) h.empty 0 in
        (i j : Instruction) × (address : ℕ) × (parse_line h (remove_comment code) labels ≡ some i)
        × (parse_line h text labels ≡ some j)
        × (pc_after input machine j
            ≡ (if taken o machine.cpu then address else add64 machine.cpu.pc instr_size))
        × (fetch_next (store_machine_code m mem_size is) address ≡ some i)
  unfolding jump_opcode
  parse_assembly-jump before after line code text operation is ts m o input machine e le lab cod
        short d p1 op p2 =
      let lines = before ++ line ∷ code ∷ after in
      let labels = first_pass h lines h.empty 0 in
      let (k, i, found, parsed, at) =
        parse_assembly-label h before after line code is ts e lab cod short d in
      let lt = lt_of_get_elem? is k at in
      let address : mul64 k instr_size ≡ k * instr_size = omega (arith, lt, le) in
      (
        i,
        jump o k,
        k * instr_size,
        parsed,
        parse_line-jump text (label_of line) operation labels o k p1 op p2 found,
        jump_taken input machine o k (ground (arith, op)) (ground (arith, op))
            ∙ ap (λ (a : ℕ). if taken o machine.cpu then a else add64 machine.cpu.pc instr_size)
                address,
        (parse_assembly-fetch h lines is ts m e le).0 k i at,
      )
