-- ===== src/Assembler/Loaded.antt =====
-- userspace/src/assembler.c: the whole way of a program, from its lines through `parse_assembly` and
-- `store_machine_code` to the instructions that the client fetches.
use rpi_cpu_emulator_linux_d.Base.{
  ℕ, zero, suc, ◌+◌, ◌*◌, ◌^◌, ◌≤◌, ◌<◌, ◌≡◌, inl, inr, refl, sym, ap, ◌∙◌, arith,
}
use rpi_cpu_emulator_linux_d.Base.{
  some, Bool-cases, Option-cases, List, [], ◌∷◌, ◌++◌, length, take, get_elem?, length-append,
  get_elem?-append_right,
}
use mathlib.Core.Path.{subst}
use mathlib.Core.Option.{some-injective}
use rpi_cpu_emulator_linux_d.Uapi.{Instruction, instr_size}
use rpi_cpu_emulator_linux_d.Driver.Valid.{FitsInstruction}
use rpi_cpu_emulator_linux_d.Userspace.Memory.{Memory, mem_size, fetch_next}
use rpi_cpu_emulator_linux_d.Userspace.Image.{store_machine_code, fetch_next-store}
use rpi_cpu_emulator_linux_d.Assembler.Text.{
  Text, contains, remove_comment, remove_newline, is_empty,
}
use rpi_cpu_emulator_linux_d.Assembler.Labels.{Uthash, put, key_length}
use rpi_cpu_emulator_linux_d.Assembler.Parse.{parse_line}
use rpi_cpu_emulator_linux_d.Assembler.Parse.Fits.{parse_line-FitsInstruction}
use rpi_cpu_emulator_linux_d.Assembler.Passes.{
  is_code, grow, Built, nothing_built, halt_instr, first_pass, second_step, second_pass,
  parse_assembly,
}
use rpi_cpu_emulator_linux_d.Assembler.Passes.Numbers.{count_code, label_of, is_code-first}
use rpi_cpu_emulator_linux_d.Assembler.Passes.Build.{parse_assembly-sizes}

unfoldable pub AllFit : List Instruction → Type 0
AllFit [] = Unit {0}
AllFit (i ∷ is) = FitsInstruction i × AllFit is

AllFit-append : (xs ys : List Instruction) → AllFit xs → AllFit ys → AllFit (xs ++ ys)
unfolding AllFit
AllFit-append [] ys a b = b
AllFit-append (x ∷ xs) ys a b = (a.0, AllFit-append xs ys (a.1) b)

AllFit-get_elem? :
    (xs : List Instruction) (k : ℕ) (i : Instruction)
    → AllFit xs
    → get_elem? xs k ≡ some i
    → FitsInstruction i
unfolding AllFit
AllFit-get_elem? [] k i a e = absurd (cc)
AllFit-get_elem? (x ∷ xs) zero i a e = subst FitsInstruction (some-injective x i e) (a.0)
AllFit-get_elem? (x ∷ xs) (suc k) i a e = AllFit-get_elem? xs k i (a.1) e

halt_instr-FitsInstruction : FitsInstruction halt_instr
halt_instr-FitsInstruction = record {
  operand2_fits = omega arith;
  operand1_fits = omega arith;
  opcode_fits = omega arith;
  mode_fits = omega arith;
}

module _ (h : Uthash) where
  -- The values of a table are below a bound.
  abbrev IsBelow : ℕ → h.Table → Type 0
  IsBelow bound t = (key : Text) (v : ℕ) → h.find t key ≡ some v → v < bound

  put-IsBelow :
      (bound : ℕ) (t : h.Table) (key : Text) (n : ℕ)
      → n < bound
      → IsBelow bound t
      → IsBelow bound (put h t key n)
  unfolding put
  put-IsBelow bound t key n lt b other v e = elim (Option-cases (h.find t key)) [
    | inl new ↦ elim (h.find-add t (take key_length key) other n v (rw (put, new) at e)) [
      | inl same ↦ omega (arith, same, lt)
      | inr old ↦ b other v old
    ]
    | inr (w, there) ↦ elim (h.find-assign t key other n v (rw (put, there) at e)) [
      | inl same ↦ omega (arith, same, lt)
      | inr old ↦ b other v old
    ]
  ]

  first_pass-IsBelow :
      (bound : ℕ) (ls : List Text) (t : h.Table) (n : ℕ)
      → n + count_code ls < bound
      → IsBelow bound t
      → IsBelow bound (first_pass h ls t n)
  unfolding first_pass count_code
  first_pass-IsBelow bound [] t n lt b = b
  first_pass-IsBelow bound (l ∷ ls) t n lt b = elim (Bool-cases (is_empty l)) [
    | inl e ↦
        rw (first_pass, e)
          (first_pass-IsBelow bound ls t n (ground (arith, lt, e, is_code-first l)) b)
    | inr e ↦ elim (Bool-cases (contains b':' (remove_comment l))) [
      | inl c ↦
          rw (first_pass, e, c)
            (first_pass-IsBelow bound ls (put h t (label_of l) n) n
              (ground (arith, lt, e, c, is_code-first l))
              (put-IsBelow bound t (label_of l) n (omega (arith, lt)) b))
      | inr c ↦
          rw (first_pass, e, c)
            (first_pass-IsBelow bound ls t (suc n) (ground (arith, lt, e, c, is_code-first l)) b)
    ]
  ]

  module _ (labels : h.Table) (labels_fit : IsBelow (2 ^ 64) labels) where
    second_pass-AllFit :
        (ls : List Text) (b b' : Built)
        → second_pass h labels ls b ≡ some b'
        → AllFit b.instructions
        → AllFit b'.instructions
    unfolding second_pass second_step AllFit
    second_pass-AllFit [] b b' e fits =
        subst (λ c. AllFit c.instructions) (some-injective b b' e) fits
    second_pass-AllFit (l ∷ ls) b b' e fits = elim (Bool-cases (is_code l)) [
      | inr other ↦
          let step : second_step h labels l b
              ≡ some (record b { capacity = grow b.num_instructions b.capacity }) =
            rw (second_step, other) refl in
          second_pass-AllFit ls (record b { capacity = grow b.num_instructions b.capacity }) b'
            (rw (second_pass, step) at e) fits
      | inl code ↦ elim (Option-cases (parse_line h (remove_comment l) labels)) [
        | inl bad ↦ absurd (ground (arith, e, code, bad))
        | inr (i, parsed) ↦
            let c : Built = record {
              instructions = b.instructions ++ i ∷ [];
              texts = b.texts ++ remove_newline l ∷ [];
              num_instructions = suc b.num_instructions;
              capacity = grow b.num_instructions b.capacity;
            } in
            let step : second_step h labels l b ≡ some c = rw (second_step, code, parsed) refl in
            second_pass-AllFit ls c b' (rw (second_pass, step) at e) (
              AllFit-append b.instructions (i ∷ []) fits
                (parse_line-FitsInstruction h labels labels_fit (remove_comment l) i parsed, tt))
      ]
    ]

  -- A program that fits the memory has few labels, so their numbers fit.
  labels-fit :
      (lines : List Text)
      → count_code lines < 2 ^ 64
      → IsBelow (2 ^ 64) (first_pass h lines h.empty 0)
  labels-fit lines lt =
      first_pass-IsBelow (2 ^ 64) lines h.empty 0 (omega (arith, lt))
        (λ key v e. absurd (let missing = h.find-empty key in cc))

  pub parse_assembly-AllFit :
      (lines : List Text) (is : List Instruction) (ts : List Text)
      → parse_assembly h lines ≡ some (is, ts)
      → length is * instr_size + instr_size ≤ mem_size
      → AllFit is
  unfolding AllFit
  parse_assembly-AllFit lines is ts e le =
      let (sizes, texts, (b, run, is_same, counted, room)) = parse_assembly-sizes h lines is ts e in
      let labels = first_pass h lines h.empty 0 in
      let built : AllFit b.instructions =
        second_pass-AllFit labels (labels-fit lines (omega (arith, sizes, le))) lines nothing_built
          b run tt in
      subst AllFit (sym is_same)
        (AllFit-append b.instructions (halt_instr ∷ []) built (halt_instr-FitsInstruction, tt))

  -- A program that is assembled and fits the memory with one instruction to spare: whatever was in
  -- memory before, after `store_machine_code` the client fetches at the address of each instruction
  -- number exactly the instruction that the assembler made, and HALT behind the last line of code.
  pub parse_assembly-fetch :
      (lines : List Text) (is : List Instruction) (ts : List Text) (m : Memory)
      → parse_assembly h lines ≡ some (is, ts)
      → length is * instr_size + instr_size ≤ mem_size
      → ((k : ℕ) (i : Instruction)
          → get_elem? is k ≡ some i
          → fetch_next (store_machine_code m mem_size is) (k * instr_size) ≡ some i)
        × (fetch_next (store_machine_code m mem_size is) (count_code lines * instr_size)
            ≡ some halt_instr)
  unfolding AllFit
  parse_assembly-fetch lines is ts m e le =
      let (sizes, texts, (b, run, is_same, counted, room)) = parse_assembly-sizes h lines is ts e in
      let labels = first_pass h lines h.empty 0 in
      let fit : AllFit is = parse_assembly-AllFit lines is ts e le in
      let fetched : (k : ℕ) (i : Instruction)
          → get_elem? is k ≡ some i
          → fetch_next (store_machine_code m mem_size is) (k * instr_size) ≡ some i =
        λ k i at. (fetch_next-store m is k i le at (AllFit-get_elem? is k i fit at)).0 in
      let size : length b.instructions ≡ count_code lines =
        omega (arith, sizes, ap length is_same, length-append b.instructions (halt_instr ∷ [])) in
      let last : get_elem? is (count_code lines) ≡ some halt_instr =
        ap (λ t. get_elem? t (count_code lines)) is_same
        ∙ ap (λ (n : ℕ). get_elem? (b.instructions ++ halt_instr ∷ []) n) {x = count_code lines}
            {y = length b.instructions + 0} (omega (arith, size))
        ∙ get_elem?-append_right b.instructions (halt_instr ∷ []) 0 in
      (fetched, fetched (count_code lines) halt_instr last)
