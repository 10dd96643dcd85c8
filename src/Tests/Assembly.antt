-- ===== src/Tests/Assembly.antt =====
-- userspace/src/assembler.c on a concrete program, with a list of entries for the table of labels.
use mathlib.Core.Option.{some-injective}
use rpi_cpu_emulator_linux_d.Base.{sym, ◌∙◌, ◌⊎◌, inl, inr, Bool-cases}
use rpi_cpu_emulator_linux_d.Base.{
  ℕ, ◌+◌, ◌<◌, ◌≡◌, refl, arith, true, some, none, Option, List, [], ◌∷◌, ◌++◌, length,
  if◌then◌else◌,
}
use rpi_cpu_emulator_linux_d.Uapi.{Instruction}
use rpi_cpu_emulator_linux_d.Base.{◌^◌}
use rpi_cpu_emulator_linux_d.Driver.Valid.{FitsInstruction}
use rpi_cpu_emulator_linux_d.Assembler.Parse.Fits.{parse_line-FitsInstruction}
use rpi_cpu_emulator_linux_d.Assembler.Text.{
  Text, text_eq, contains, cut_at, remove_comment, is_empty, substring, skip_spaces, skip_spaces_at,
  find_end, split_by_char, remove_newline,
}
use rpi_cpu_emulator_linux_d.Assembler.Number.{
  is_space, digit_of, base_digit, read_digits, skip_white, convert, skip_prefix, signed, strtoull,
  parse_int,
}
use rpi_cpu_emulator_linux_d.Assembler.Labels.{Uthash, put, get}
use rpi_cpu_emulator_linux_d.Assembler.Parse.{
  replace_comma, operation_opcode, jump_opcode, register_number, ends_with, bracketed,
  parse_operand2, parse_operand1, default_mode, parse_operands, label_target, parse_jump,
  parse_line,
}
use rpi_cpu_emulator_linux_d.Assembler.Passes.{
  is_code, grow, Built, nothing_built, halt_instr, halt_text, first_pass, second_step, second_pass,
  parse_assembly,
}
use rpi_cpu_emulator_linux_d.Assembler.Passes.Numbers.{count_code}
use rpi_cpu_emulator_linux_d.Assembler.Passes.Build.{parse_assembly-sizes}

abbrev pub find_entry : List (Text × ℕ) → Text → Option ℕ
find_entry [] key = none
find_entry ((k, v) ∷ t) key = if text_eq k key then some v else find_entry t key

pub text_eq_self : (s : Text) → text_eq s s ≡ true
unfolding text_eq
text_eq_self [] = refl
text_eq_self (c ∷ s) = ground (arith, text_eq_self s)

pub found_entry :
    (t : List (Text × ℕ)) (key other : Text) (v w : ℕ)
    → find_entry ((key, v) ∷ t) other ≡ some w
    → (w ≡ v) ⊎ (find_entry t other ≡ some w)
found_entry t key other v w e = elim (Bool-cases (text_eq key other)) [
  | inl same ↦ inl (sym (some-injective v w (sym (rw (same) refl) ∙ e)))
  | inr differ ↦ inr (sym (rw differ refl) ∙ e)
]

abbrev pub entries : Uthash
entries = record {
  Table = List (Text × ℕ);
  empty = [];
  find = find_entry;
  add = λ t key v. (key, v) ∷ t;
  assign = λ t key v. (key, v) ∷ t;
  find-empty = λ key. refl;
  find-add_self = λ t key v e. rw (text_eq_self key) refl;
  find-add_ne = λ t key other v ne. rw (ne) refl;
  find-assign_self = λ t key v w e. rw (text_eq_self key) refl;
  find-assign_ne = λ t key other v w e ne. rw (ne) refl;
  find-add = found_entry;
  find-assign = found_entry;
}

-- `MOV R1, 5`, `up:` and `JMP up`
abbrev pub mov_line : Text
mov_line = b'M' ∷ b'O' ∷ b'V' ∷ b' ' ∷ b'R' ∷ b'1' ∷ b',' ∷ b' ' ∷ b'5' ∷ b'\n' ∷ []

abbrev pub label_line : Text
label_line = b'u' ∷ b'p' ∷ b':' ∷ b'\n' ∷ []

abbrev pub jump_line : Text
jump_line = b'J' ∷ b'M' ∷ b'P' ∷ b' ' ∷ b'u' ∷ b'p' ∷ b'\n' ∷ []

abbrev pub some_lines : List Text
some_lines = mov_line ∷ label_line ∷ jump_line ∷ []

abbrev pub some_instructions : List Instruction
some_instructions =
    record { operand2 = 5; operand1 = 1; opcode = 0x10; mode = 0 }
    ∷ record { operand2 = 1; operand1 = 255; opcode = 0x21; mode = 4 }
    ∷ halt_instr
    ∷ []

abbrev pub some_texts : List Text
some_texts = remove_newline mov_line ∷ remove_newline jump_line ∷ halt_text ∷ []

pub some_lines-assembled : parse_assembly entries some_lines ≡ some (some_instructions, some_texts)
unfolding text_eq contains cut_at remove_comment is_empty substring skip_spaces skip_spaces_at
    find_end split_by_char remove_newline is_space digit_of base_digit read_digits skip_white
    convert skip_prefix signed strtoull parse_int put get replace_comma operation_opcode jump_opcode
    register_number ends_with bracketed parse_operand2 parse_operand1 default_mode parse_operands
    label_target parse_jump parse_line is_code grow first_pass second_step second_pass
    parse_assembly
some_lines-assembled = refl

parse_assembly-sizes_example :
    (length some_instructions ≡ count_code some_lines + 1)
    × (length some_texts ≡ length some_instructions)
    × ((b : Built) × (second_pass entries
            (first_pass entries some_lines [] 0)
            some_lines
            nothing_built
          ≡ some b)
        × (some_instructions ≡ b.instructions ++ halt_instr ∷ [])
        × (b.num_instructions ≡ length b.instructions)
        × (b.num_instructions < b.capacity))
parse_assembly-sizes_example =
    parse_assembly-sizes entries some_lines some_instructions some_texts some_lines-assembled

no_labels-fit : (key : Text) (v : ℕ) → find_entry [] key ≡ some v → v < 2 ^ 64
no_labels-fit key v e = absurd (cc)

abbrev mov_instruction : Instruction
mov_instruction = record { operand2 = 5; operand1 = 1; opcode = 0x10; mode = 0 }

mov_line-parsed : parse_line entries mov_line [] ≡ some mov_instruction
unfolding text_eq substring skip_spaces skip_spaces_at find_end split_by_char is_space digit_of
    base_digit read_digits skip_white convert skip_prefix signed strtoull parse_int get
    replace_comma operation_opcode jump_opcode register_number ends_with bracketed parse_operand2
    parse_operand1 default_mode parse_operands parse_line
mov_line-parsed = refl

parse_line-FitsInstruction_example : FitsInstruction mov_instruction
parse_line-FitsInstruction_example =
    parse_line-FitsInstruction entries [] no_labels-fit mov_line mov_instruction mov_line-parsed
