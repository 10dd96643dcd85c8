-- ===== src/Assembler/Parse/Fits.antt =====
-- userspace/src/assembler.c: the fields that `parse_line` fills in fit their C types.
use rpi_cpu_emulator_linux_d.Base.{ℕ, ◌^◌, ◌<◌, ◌≡◌, arith}
use rpi_cpu_emulator_linux_d.Base.{
  Bool, true, false, not, ◌||◌, Bool-cases, if_rule, Option, none, some, [], ◌∷◌, Option-cases, inl,
  inr, ◌==◌, if◌then◌else◌,
}
use mathlib.Core.Path.{subst}
use mathlib.Core.Option.{some-injective}
use rpi_cpu_emulator_linux_d.Uapi.{Instruction}
use rpi_cpu_emulator_linux_d.Uapi.Opcode
use rpi_cpu_emulator_linux_d.Uapi.Mode
use rpi_cpu_emulator_linux_d.Driver.Valid.{FitsInstruction}
use rpi_cpu_emulator_linux_d.Assembler.Text.{Text, split_by_char}
use rpi_cpu_emulator_linux_d.Assembler.Number.{
  convert, signed, skip_prefix, skip_white, strtoull, parse_int, Converted,
}
use rpi_cpu_emulator_linux_d.Assembler.Labels.{Uthash, get}
use rpi_cpu_emulator_linux_d.Assembler.Parse.{
  replace_comma, blank, register_number, bracketed, operation_opcode, jump_opcode, parse_operand1,
  parse_operand2,
}
use rpi_cpu_emulator_linux_d.Assembler.Parse.{
  default_mode, parse_operands, label_target, parse_jump, parse_line,
}

convert-lt : (base : ℕ) (negative : Bool) (s : Text) → (convert base negative s).value < 2 ^ 64
unfolding convert
convert-lt base negative [] = omega arith
convert-lt base negative (c ∷ cs) = ground arith

signed-lt : (base : ℕ) (s : Text) → (signed base s).value < 2 ^ 64
unfolding signed
signed-lt base [] = convert-lt base false []
signed-lt base (c ∷ cs) =
    if_rule (λ (r : Converted). r.value < 2 ^ 64) (c == b'-')
      (convert-lt base true (skip_prefix base cs))
      (if_rule (λ (r : Converted). r.value < 2 ^ 64) (c == b'+')
        (convert-lt base false (skip_prefix base cs))
        (convert-lt base false (skip_prefix base (c ∷ cs))))

strtoull-lt : (base : ℕ) (s : Text) → (strtoull base s).value < 2 ^ 64
unfolding strtoull
strtoull-lt base s = signed-lt base (skip_white s)

ended :
    (rest : Text) (value v : ℕ)
    → elim rest as (λ _. Option ℕ) [ [] ↦ some value | _ ∷ _ ↦ none ] ≡ some v
    → value ≡ v
ended [] value v e = some-injective value v e
ended (c ∷ cs) value v e = absurd (cc)

parse_int-lt : (s : Text) (v : ℕ) → parse_int s ≡ some v → v < 2 ^ 64
unfolding parse_int
parse_int-lt s v e = elim (Bool-cases (not r.has_digits || r.out_of_range)) [
  | inl bad ↦ absurd (ground (arith, e, bad))
  | inr fine ↦
      subst (λ (w : ℕ). w < 2 ^ 64) (ended r.rest r.value v (rw (parse_int, fine) at e))
        (strtoull-lt 10 s)
]
  where
    r : Converted
    r = strtoull 10 s

register_number-lt : (s : Text) (r : ℕ) → register_number s ≡ some r → r < 4
unfolding register_number
register_number-lt s r e = ground (arith, e)

parse_operand2-FitsInstruction :
    (s : Text) (i : Instruction) → FitsInstruction i → FitsInstruction (parse_operand2 s i)
unfolding parse_operand2
parse_operand2-FitsInstruction s i f = elim (Option-cases (register_number s)) [
  | inr (r, e) ↦
      rw (parse_operand2, e)
        (record {
          operand2_fits = omega (arith, register_number-lt s r e);
          operand1_fits = f.operand1_fits;
          opcode_fits = f.opcode_fits;
          mode_fits = f.mode_fits;
        })
  | inl e ↦ elim (Option-cases (bracketed s)) [
    | inr (inner, b) ↦
        rw (parse_operand2, e, b)
          (record {
            operand2_fits = strtoull-lt 16 inner;
            operand1_fits = f.operand1_fits;
            opcode_fits = f.opcode_fits;
            mode_fits = omega arith;
          })
    | inl b ↦ elim (Option-cases (parse_int s)) [
      | inr (v, n) ↦
          rw (parse_operand2, e, b, n)
            (record {
              operand2_fits = parse_int-lt s v n;
              operand1_fits = f.operand1_fits;
              opcode_fits = f.opcode_fits;
              mode_fits = omega arith;
            })
      | inl n ↦ rw (parse_operand2, e, b, n) f
    ]
  ]
]

parse_operand1-FitsInstruction :
    (s : Text) (i : Instruction) → FitsInstruction i → FitsInstruction (parse_operand1 s i)
unfolding parse_operand1
parse_operand1-FitsInstruction s i f = elim (Option-cases (register_number s)) [
  | inr (r, e) ↦
      rw (parse_operand1, e)
        (record {
          operand2_fits = f.operand2_fits;
          operand1_fits = omega (arith, register_number-lt s r e);
          opcode_fits = f.opcode_fits;
          mode_fits = f.mode_fits;
        })
  | inl e ↦ elim (Option-cases (bracketed s)) [
    | inr (inner, b) ↦
        rw (parse_operand1, e, b)
          (record {
            operand2_fits = strtoull-lt 16 inner;
            operand1_fits = omega arith;
            opcode_fits = f.opcode_fits;
            mode_fits = omega arith;
          })
    | inl b ↦ rw (parse_operand1, e, b) f
  ]
]

default_mode-FitsInstruction :
    (i : Instruction) → FitsInstruction i → FitsInstruction (default_mode i)
unfolding default_mode
default_mode-FitsInstruction i f = ground arith

parse_operands-FitsInstruction :
    (a b : Option Text) (i j : Instruction)
    → parse_operands a b i ≡ some j
    → FitsInstruction i
    → FitsInstruction j
unfolding parse_operands
parse_operands-FitsInstruction none none i j e f = absurd (cc)
parse_operands-FitsInstruction none (some s) i j e f =
    subst FitsInstruction (some-injective (parse_operand2 s i) j e)
      (parse_operand2-FitsInstruction s i f)
parse_operands-FitsInstruction (some s) none i j e f =
    let k : Instruction = parse_operand1 s (parse_operand2 s i) in
    subst FitsInstruction (some-injective (default_mode k) j e) (
      default_mode-FitsInstruction k (
        parse_operand1-FitsInstruction s (parse_operand2 s i)
          (parse_operand2-FitsInstruction s i f)))
parse_operands-FitsInstruction (some s) (some t) i j e f =
    let k : Instruction = parse_operand1 s (parse_operand2 t i) in
    subst FitsInstruction (some-injective (default_mode k) j e) (
      default_mode-FitsInstruction k (
        parse_operand1-FitsInstruction s (parse_operand2 t i)
          (parse_operand2-FitsInstruction t i f)))

operation_opcode-lt : (s : Text) → operation_opcode s < 256
unfolding operation_opcode
operation_opcode-lt s = ground arith

jump_opcode-lt : (s : Text) (o : ℕ) → jump_opcode s ≡ some o → o < 256
unfolding jump_opcode
jump_opcode-lt s o e = ground (arith, e)

module _ (h : Uthash) (labels : h.Table)
    (labels_fit : (key : Text) (v : ℕ) → h.find labels key ≡ some v → v < 2 ^ 64) where
  label_target-lt : (key : Text) → label_target h labels key < 2 ^ 64
  unfolding label_target get
  label_target-lt key = elim (Option-cases (h.find labels key)) [
    | inl e ↦ rw (label_target, e) (omega arith)
    | inr (v, e) ↦ rw (label_target, e) (labels_fit key v e)
  ]

  parse_jump-FitsInstruction :
      (a b : Option Text) (i j : Instruction)
      → parse_jump h labels a b i ≡ some j
      → FitsInstruction i
      → FitsInstruction j
  unfolding parse_jump
  parse_jump-FitsInstruction none none i j e f = absurd (cc)
  parse_jump-FitsInstruction none (some s) i j e f =
      subst FitsInstruction (some-injective _ j e) (record {
        operand2_fits = label_target-lt s;
        operand1_fits = f.operand1_fits;
        opcode_fits = f.opcode_fits;
        mode_fits = omega arith;
      })
  parse_jump-FitsInstruction (some s) b i j e f =
      subst FitsInstruction (some-injective _ j e) (record {
        operand2_fits = label_target-lt s;
        operand1_fits = f.operand1_fits;
        opcode_fits = f.opcode_fits;
        mode_fits = omega arith;
      })

  -- Where the numbers of the labels fit 64 bits, an instruction that `parse_line` returns has fields
  -- that fit their C types, whatever the line holds.
  pub parse_line-FitsInstruction :
      (line : Text) (j : Instruction) → parse_line h line labels ≡ some j → FitsInstruction j
  unfolding parse_line
  parse_line-FitsInstruction line j e =
      let parts = split_by_char (replace_comma line) b' ' in
      elim (Option-cases parts.part1) [
        | inl bad ↦ absurd (ground (arith, e, bad))
        | inr (operation, p) ↦ elim (Option-cases (jump_opcode operation)) [
          | inr (o, jumps) ↦
              parse_jump-FitsInstruction parts.part2 parts.part3 (record blank { opcode = o }) j
                (rw (parse_line, p, jumps) at e)
                (record {
                  operand2_fits = omega arith;
                  operand1_fits = omega arith;
                  opcode_fits = jump_opcode-lt operation o jumps;
                  mode_fits = omega arith;
                })
          | inl other ↦
              parse_operands-FitsInstruction parts.part2 parts.part3
                (record blank {
                  opcode = operation_opcode operation;
                  mode = if operation_opcode operation == Opcode.not then Mode.register else 255;
                })
                j (rw (parse_line, p, other) at e)
                (record {
                  operand2_fits = omega arith;
                  operand1_fits = omega arith;
                  opcode_fits = operation_opcode-lt operation;
                  mode_fits = ground arith;
                })
        ]
      ]
