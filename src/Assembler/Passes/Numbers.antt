-- ===== src/Assembler/Passes/Numbers.antt =====
-- userspace/src/assembler.c: the numbers that the first pass gives to labels, against the positions
-- of the instructions in the second.
use rpi_cpu_emulator_linux_d.Base.{ℕ, suc, ◌+◌, ◌≡◌, ◌⊎◌, inl, inr, refl, ap, ◌∙◌, arith}
use rpi_cpu_emulator_linux_d.Base.{
  Bool, true, false, ◌&&◌, not, some, List, [], ◌∷◌, ◌++◌, take, Bool-cases, Option-cases,
  if◌then◌else◌,
}
use rpi_cpu_emulator_linux_d.Assembler.Text.{
  Text, text_eq, contains, cut_at, remove_comment, is_empty,
}
use rpi_cpu_emulator_linux_d.Assembler.Labels.{Uthash, put, key_length}
use rpi_cpu_emulator_linux_d.Assembler.Passes.{is_code, first_pass}

-- The instructions among the lines.
unfoldable pub count_code : List Text → ℕ
count_code [] = 0
count_code (l ∷ ls) = (if is_code l then 1 else 0) + count_code ls

-- A line that the first pass takes for a label, and the name that it defines.
unfoldable pub is_label : Text → Bool
is_label line = not (is_empty line) && contains b':' (remove_comment line)

abbrev pub label_of : Text → Text
label_of line = cut_at b':' (remove_comment line)

-- A comment does not make a line empty that is not.
is_empty-cut : (l : Text) → is_empty l ≡ false → is_empty (cut_at b';' l) ≡ false
unfolding is_empty cut_at
is_empty-cut [] h = h
is_empty-cut (c ∷ cs) h = ground (arith, h, is_empty-cut cs)

pub is_code-first :
    (l : Text) → is_code l ≡ (not (is_empty l) && not (contains b':' (remove_comment l)))
unfolding is_code remove_comment
is_code-first l = elim (Bool-cases (is_empty l)) [
  | inl e ↦ ground (arith, e)
  | inr e ↦ ground (arith, e, is_empty-cut l e)
]

pub no_label : (code : Text) → is_code code ≡ true → is_label code ≡ false
unfolding is_label
no_label code is = ground (arith, is, is_code-first code)

module _ (h : Uthash) where
  first_pass-append :
      (xs ys : List Text) (t : h.Table) (n : ℕ)
      → first_pass h (xs ++ ys) t n ≡ first_pass h ys (first_pass h xs t n) (n + count_code xs)
  unfolding first_pass count_code
  first_pass-append [] ys t n =
      ap (λ (k : ℕ). first_pass h ys t k) {x = n} {y = n + 0} (omega arith)
  first_pass-append (x ∷ xs) ys t n = elim (Bool-cases (is_empty x)) [
    | inl e ↦ ground (arith, e, is_code-first x, first_pass-append xs ys t n)
    | inr e ↦ elim (Bool-cases (contains b':' (remove_comment x))) [
      | inl l ↦
          ground (arith, e, l, is_code-first x, first_pass-append xs ys (put h t (label_of x) n) n)
      | inr l ↦ ground (
        arith,
        e,
        l,
        is_code-first x,
        first_pass-append xs ys t (suc n),
        ap (λ (k : ℕ). first_pass h ys (first_pass h xs t (suc n)) k) {x = suc n + count_code xs}
            {y = n + (1 + count_code xs)} (omega arith),
      )
    ]
  ]

-- No line of the list defines the name, not even by the 63 bytes that the table keeps.
abbrev pub NotDefined : Text → List Text → Type 0
NotDefined key [] = Unit {0}
NotDefined key (l ∷ ls) =
    ((is_label l ≡ false)
      ⊎ (text_eq (label_of l) key ≡ false) × (text_eq (take key_length (label_of l)) key ≡ false))
    × NotDefined key ls

module _ (h : Uthash) where
  find-put_self :
      (t : h.Table) (key : Text) (n : ℕ)
      → take key_length key ≡ key
      → h.find (put h t key n) key ≡ some n
  unfolding put
  find-put_self t key n short = elim (Option-cases (h.find t key)) [
    | inl e ↦ rw (put, e, short) (h.find-add_self t key n e)
    | inr (w, e) ↦ rw (put, e) (h.find-assign_self t key n w e)
  ]

  find-put_ne :
      (t : h.Table) (k key : Text) (n : ℕ)
      → text_eq k key ≡ false
      → text_eq (take key_length k) key ≡ false
      → h.find (put h t k n) key ≡ h.find t key
  unfolding put
  find-put_ne t k key n ne ne' = elim (Option-cases (h.find t k)) [
    | inl e ↦ rw (put, e) (h.find-add_ne t (take key_length k) key n ne')
    | inr (w, e) ↦ rw (put, e) (h.find-assign_ne t k key n w e ne)
  ]

  find-first_pass :
      (ls : List Text) (t : h.Table) (n : ℕ) (key : Text)
      → NotDefined key ls
      → h.find (first_pass h ls t n) key ≡ h.find t key
  unfolding first_pass is_label
  find-first_pass [] t n key d = refl
  find-first_pass (l ∷ ls) t n key d = elim (Bool-cases (is_empty l)) [
    | inl e ↦ rw (first_pass, e) (find-first_pass ls t n key d.1)
    | inr e ↦ elim (Bool-cases (contains b':' (remove_comment l))) [
      | inr c ↦ rw (first_pass, e, c) (find-first_pass ls t (suc n) key d.1)
      | inl c ↦ elim (d.0) [
        | inl free ↦ absurd (ground (arith, free, e, c))
        | inr (ne, ne') ↦
            rw (first_pass, e, c)
              (find-first_pass ls (put h t (label_of l) n) n key d.1
                ∙ find-put_ne t (label_of l) key n ne ne')
      ]
    ]
  ]

  -- The first pass gives a label the number of instructions before it.
  pub find-label :
      (before after : List Text) (line : Text)
      → is_label line ≡ true
      → take key_length (label_of line) ≡ label_of line
      → NotDefined (label_of line) after
      → h.find (first_pass h (before ++ line ∷ after) h.empty 0) (label_of line)
        ≡ some (count_code before)
  unfolding first_pass is_label
  find-label before after line is short d =
      let n : ℕ = 0 + count_code before in
      let t = first_pass h before h.empty 0 in
      let e : is_empty line ≡ false = ground (arith, is) in
      let c : contains b':' (remove_comment line) ≡ true = ground (arith, is) in
      ap (λ t. h.find t (label_of line)) (first_pass-append h before (line ∷ after) h.empty 0)
      ∙ rw (first_pass, e, c)
          (find-first_pass after (put h t (label_of line) n) n (label_of line) d
            ∙ find-put_self t (label_of line) n short
            ∙ ap some {x = n} {y = count_code before} (omega arith))
