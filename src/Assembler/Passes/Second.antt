-- ===== src/Assembler/Passes/Second.antt =====
-- userspace/src/assembler.c: what the rounds of the second pass add.
use rpi_cpu_emulator_linux_d.Base.{ℕ, suc, ◌≤◌, ◌≡◌, inl, inr, refl, sym, ap, ◌∙◌, arith}
use rpi_cpu_emulator_linux_d.Base.{
  some, List, [], ◌∷◌, ◌++◌, length, length-append, Bool-cases, Option-cases, if◌then◌else◌,
}
use mathlib.Core.Path.{subst}
use mathlib.Core.Option.{some-injective}
use mathlib.Core.List.{append-nil, append_assoc}
use rpi_cpu_emulator_linux_d.Uapi.{Instruction}
use rpi_cpu_emulator_linux_d.Assembler.Text.{Text, remove_comment, remove_newline}
use rpi_cpu_emulator_linux_d.Assembler.Labels.{Uthash}
use rpi_cpu_emulator_linux_d.Assembler.Parse.{parse_line}
use rpi_cpu_emulator_linux_d.Assembler.Passes.{is_code, grow, Built, second_step, second_pass}
use rpi_cpu_emulator_linux_d.Assembler.Passes.Numbers.{count_code}

-- The sizes of what is built: as many texts as instructions, and a place left for one more of each.
pub record IsBuilt (b : Built) : Type 0 where
  pub counted : b.num_instructions ≡ length b.instructions
  pub all_texts : length b.texts ≡ length b.instructions
  pub room_left : suc b.num_instructions ≤ b.capacity

-- What a part of the second pass has added.
pub record Extends (n : ℕ) (b b' : Built) : Type 0 where
  pub more : List Instruction
  pub extended : b'.instructions ≡ b.instructions ++ more
  pub added : length more ≡ n
  pub is_built : IsBuilt b'

pub grow_room : (n capacity : ℕ) → suc n ≤ capacity → suc (suc n) ≤ grow n capacity
unfolding grow
grow_room n capacity le = ground arith

module _ (h : Uthash) (labels : h.Table) where
  pub second_step-Extends :
      (line : Text) (b b' : Built)
      → second_step h labels line b ≡ some b'
      → IsBuilt b
      → Extends (if is_code line then 1 else 0) b b'
  unfolding second_step
  second_step-Extends line b b' e v = elim (Bool-cases (is_code line)) [
    | inr other ↦
        let c : Built = record b { capacity = grow b.num_instructions b.capacity } in
        let step : second_step h labels line b ≡ some c = rw (second_step, other) refl in
        rw (other) (
          subst (Extends 0 b) (some-injective c b' (sym step ∙ e)) (record {
            more = [];
            extended = sym (append-nil b.instructions);
            added = refl;
            is_built = record {
              counted = v.counted;
              all_texts = v.all_texts;
              room_left = omega (arith, grow_room b.num_instructions b.capacity v.room_left);
            };
          }))
    | inl code ↦ elim (Option-cases (parse_line h (remove_comment line) labels)) [
      | inl bad ↦ absurd (ground (arith, e, code, bad))
      | inr (i, parsed) ↦
          let c : Built = record {
            instructions = b.instructions ++ i ∷ [];
            texts = b.texts ++ remove_newline line ∷ [];
            num_instructions = suc b.num_instructions;
            capacity = grow b.num_instructions b.capacity;
          } in
          let step : second_step h labels line b ≡ some c = rw (second_step, code, parsed) refl in
          rw (code) (
            subst (Extends 1 b) (some-injective c b' (sym step ∙ e)) (record {
              more = i ∷ [];
              extended = refl;
              added = refl;
              is_built = record {
                counted = omega (arith, length-append b.instructions (i ∷ []), v.counted);
                all_texts = omega (
                  arith,
                  length-append b.instructions (i ∷ []),
                  length-append b.texts (remove_newline line ∷ []),
                  v.all_texts,
                );
                room_left = grow_room b.num_instructions b.capacity v.room_left;
              };
            }))
    ]
  ]

  pub second_pass-Extends :
      (ls : List Text) (b b' : Built)
      → second_pass h labels ls b ≡ some b'
      → IsBuilt b
      → Extends (count_code ls) b b'
  unfolding second_pass count_code
  second_pass-Extends [] b b' e v =
      subst (Extends 0 b) (some-injective b b' e) (record {
        more = [];
        extended = sym (append-nil b.instructions);
        added = refl;
        is_built = v;
      })
  second_pass-Extends (l ∷ ls) b b' e v = elim (Option-cases (second_step h labels l b)) [
    | inl bad ↦ absurd (ground (arith, e, bad))
    | inr (c, step) ↦
        let one = second_step-Extends l b c step v in
        let rest = second_pass-Extends ls c b' (rw (second_pass, step) at e) one.is_built in
        record {
          more = one.more ++ rest.more;
          extended =
              rest.extended
              ∙ ap (λ t. t ++ rest.more) one.extended
              ∙ append_assoc b.instructions one.more rest.more;
          added = omega (arith, length-append one.more rest.more, one.added, rest.added);
          is_built = rest.is_built;
        }
  ]

  pub second_pass-append :
      (xs ys : List Text) (b b' : Built)
      → second_pass h labels (xs ++ ys) b ≡ some b'
      → (c : Built) × (second_pass h labels xs b ≡ some c) × (second_pass h labels ys c ≡ some b')
  unfolding second_pass
  second_pass-append [] ys b b' e = (b, refl, e)
  second_pass-append (x ∷ xs) ys b b' e = elim (Option-cases (second_step h labels x b)) [
    | inl bad ↦ absurd (ground (arith, e, bad))
    | inr (d, step) ↦
        let (c, p, q) = second_pass-append xs ys d b' (rw (second_pass, step) at e) in
        (c, rw (second_pass, step) p, q)
  ]
