-- ===== src/Assembler/Passes/Build.antt =====
-- userspace/src/assembler.c: what the second pass builds, and the instruction that a label stands for.
use rpi_cpu_emulator_linux_d.Base.{ℕ, zero, suc, ◌+◌, ◌<◌, ◌≡◌, inl, inr, refl, sym, ap, ◌∙◌, arith}
use rpi_cpu_emulator_linux_d.Base.{
  true, false, some, List, [], ◌∷◌, ◌++◌, length, take, get_elem?, length-append, Option-cases,
}
use mathlib.Core.Option.{some-injective}
use mathlib.Core.List.{append-nil}
use rpi_cpu_emulator_linux_d.Uapi.{Instruction}
use rpi_cpu_emulator_linux_d.Assembler.Text.{Text, remove_comment, remove_newline}
use rpi_cpu_emulator_linux_d.Assembler.Labels.{Uthash, key_length}
use rpi_cpu_emulator_linux_d.Assembler.Parse.{parse_line}
use rpi_cpu_emulator_linux_d.Assembler.Passes.{
  is_code, grow, Built, nothing_built, halt_instr, halt_text, first_pass, second_step, second_pass,
  parse_assembly,
}
use rpi_cpu_emulator_linux_d.Assembler.Passes.Numbers.{
  count_code, is_label, label_of, is_code-first, no_label, NotDefined, find-label,
}
use rpi_cpu_emulator_linux_d.Assembler.Passes.Second.{
  second_step-Extends, second_pass-Extends, second_pass-append, IsBuilt,
}

abbrev nothing-IsBuilt : IsBuilt nothing_built
nothing-IsBuilt = record { counted = refl; all_texts = refl; room_left = omega arith }

empty_of_length : (xs : List Instruction) → length xs ≡ 0 → xs ≡ []
empty_of_length [] e = refl
empty_of_length (x ∷ xs) e = absurd (omega (arith, e))

get_elem?-append_left :
    (xs ys : List Instruction) (n : ℕ) (i : Instruction)
    → get_elem? xs n ≡ some i
    → get_elem? (xs ++ ys) n ≡ some i
get_elem?-append_left [] ys n i e = absurd (cc)
get_elem?-append_left (x ∷ xs) ys zero i e = e
get_elem?-append_left (x ∷ xs) ys (suc n) i e = get_elem?-append_left xs ys n i e

-- The element behind a list, seen from the list that it was added to.
get_elem?-behind :
    (xs : List Instruction) (i : Instruction) (ys : List Instruction) (n : ℕ)
    → length xs ≡ n
    → get_elem? ((xs ++ i ∷ []) ++ ys) n ≡ some i
get_elem?-behind [] i ys zero e = refl
get_elem?-behind [] i ys (suc n) e = absurd (omega arith)
get_elem?-behind (x ∷ xs) i ys zero e = absurd (omega arith)
get_elem?-behind (x ∷ xs) i ys (suc n) e = get_elem?-behind xs i ys n (omega (arith, e))

module _ (h : Uthash) where
  -- What the second pass makes of an instruction line: at the number of the instructions before it,
  -- the result of `parse_line`.
  code_line :
      (labels : h.Table) (code : Text) (after : List Text) (b b' : Built)
      → second_pass h labels (code ∷ after) b ≡ some b'
      → is_code code ≡ true
      → IsBuilt b
      → (i : Instruction) × (parse_line h (remove_comment code) labels ≡ some i)
        × (get_elem? b'.instructions (length b.instructions) ≡ some i)
  unfolding second_pass second_step
  code_line labels code after b b' e is v =
      elim (Option-cases (parse_line h (remove_comment code) labels)) [
        | inl bad ↦ absurd (ground (arith, e, is, bad))
        | inr (i, parsed) ↦
            let c : Built = record {
              instructions = b.instructions ++ i ∷ [];
              texts = b.texts ++ remove_newline code ∷ [];
              num_instructions = suc b.num_instructions;
              capacity = grow b.num_instructions b.capacity;
            } in
            let step : second_step h labels code b ≡ some c = rw (second_step, is, parsed) refl in
            let one = second_step-Extends h labels code b c step v in
            let rest =
              second_pass-Extends h labels after c b' (rw (second_pass, step) at e) one.is_built in
            (
              i,
              parsed,
              ap (λ t. get_elem? t (length b.instructions)) rest.extended
                  ∙ get_elem?-behind b.instructions i rest.more (length b.instructions) refl,
            )
      ]

  label_line :
      (labels : h.Table) (line : Text) (b b' : Built)
      → second_step h labels line b ≡ some b'
      → is_label line ≡ true
      → IsBuilt b
      → (b'.instructions ≡ b.instructions) × IsBuilt b'
  unfolding is_label
  label_line labels line b b' e is v =
      let other : is_code line ≡ false = ground (arith, is, is_code-first line) in
      let x = second_step-Extends h labels line b b' e v in
      let none_added : length x.more ≡ 0 = x.added ∙ rw (other) refl in
      (
        x.extended
            ∙ ap (λ t. b.instructions ++ t) (empty_of_length x.more none_added)
            ∙ append-nil b.instructions,
        x.is_built,
      )

  -- A program that is assembled has an instruction for each line of code and one more, and a text for
  -- each instruction; both arrays have had a place left for that last one.
  pub parse_assembly-sizes :
      (lines : List Text) (is : List Instruction) (ts : List Text)
      → parse_assembly h lines ≡ some (is, ts)
      → (length is ≡ count_code lines + 1)
        × (length ts ≡ length is)
        × ((b : Built) × (second_pass h (first_pass h lines h.empty 0) lines nothing_built ≡ some b)
            × (is ≡ b.instructions ++ halt_instr ∷ [])
            × (b.num_instructions ≡ length b.instructions)
            × (b.num_instructions < b.capacity))
  unfolding parse_assembly
  parse_assembly-sizes lines is ts e =
      let labels = first_pass h lines h.empty 0 in
      elim (Option-cases (second_pass h labels lines nothing_built)) [
        | inl bad ↦ absurd (ground (arith, e, bad))
        | inr (b, run) ↦
            let x = second_pass-Extends h labels lines nothing_built b run nothing-IsBuilt in
            let built : List Instruction × List Text =
              (b.instructions ++ halt_instr ∷ [], b.texts ++ halt_text ∷ []) in
            let same : built ≡ (is, ts) =
              some-injective built (is, ts) (rw (parse_assembly, run) at e) in
            let is_same : b.instructions ++ halt_instr ∷ [] ≡ is = ap (λ p. p.0) same in
            let ts_same : b.texts ++ halt_text ∷ [] ≡ ts = ap (λ p. p.1) same in
            let size : length is ≡ length b.instructions + 1 =
              sym (ap length is_same) ∙ length-append b.instructions (halt_instr ∷ []) in
            let texts : length ts ≡ length b.texts + 1 =
              sym (ap length ts_same) ∙ length-append b.texts (halt_text ∷ []) in
            (
              omega (arith, size, ap length x.extended, x.added),
              omega (arith, size, texts, x.is_built.all_texts),
              (b, run, sym is_same, x.is_built.counted, x.is_built.room_left),
            )
      ]

  -- In a program that is assembled, take a label line with a line of code behind it, and no later line
  -- that defines the label again; the name must fit the 63 bytes that the table keeps. The table then
  -- gives the label a number, and the instruction at this number is the one that the line of code
  -- stands for.
  pub parse_assembly-label :
      (before after : List Text) (line code : Text) (is : List Instruction) (ts : List Text)
      → parse_assembly h (before ++ line ∷ code ∷ after) ≡ some (is, ts)
      → is_label line ≡ true
      → is_code code ≡ true
      → take key_length (label_of line) ≡ label_of line
      → NotDefined (label_of line) after
      → let labels = first_pass h (before ++ line ∷ code ∷ after) h.empty 0 in
        (k : ℕ) × (i : Instruction) × (h.find labels (label_of line) ≡ some k)
        × (parse_line h (remove_comment code) labels ≡ some i)
        × (get_elem? is k ≡ some i)
  unfolding second_pass is_label
  parse_assembly-label before after line code is ts e lab cod short d =
      let labels = first_pass h (before ++ line ∷ code ∷ after) h.empty 0 in
      let (sizes, texts, (b, run, is_same, counted, room)) =
        parse_assembly-sizes (before ++ line ∷ code ∷ after) is ts e in
      let (c, p, q) =
        second_pass-append h labels before (line ∷ code ∷ after) nothing_built b run in
      let x = second_pass-Extends h labels before nothing_built c p nothing-IsBuilt in
      elim (Option-cases (second_step h labels line c)) [
        | inl bad ↦ absurd (ground (arith, q, bad))
        | inr (s, step) ↦
            let (same, built) = label_line labels line c s step lab x.is_built in
            let (i, parsed, at) =
              code_line labels code after s b (rw (second_pass, step) at q) cod built in
            let number : length s.instructions ≡ count_code before =
              ap length (same ∙ x.extended) ∙ x.added in
            (
              count_code before,
              i,
              find-label h before (code ∷ after) line lab short (inl (no_label code cod), d),
              parsed,
              ap (λ t. get_elem? t (count_code before)) is_same
                  ∙ get_elem?-append_left b.instructions (halt_instr ∷ []) (count_code before) i
                      (ap (λ (n : ℕ). get_elem? b.instructions n) (sym number) ∙ at),
            )
      ]
