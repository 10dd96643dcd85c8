-- ===== src/Assembler/Labels.antt =====
-- userspace/src/assembler.c: `put` and `get` on the table of labels. The table is one of uthash, whose
-- operations and laws are an interface.
use rpi_cpu_emulator_linux_d.Base.{ℕ, ◌⊎◌, false, Option, none, some, ◌≡◌, take}
use rpi_cpu_emulator_linux_d.Assembler.Text.{Text, text_eq}

-- `HASH_FIND_STR`, `HASH_ADD_STR`, and the assignment to the value of an entry that was found. Keys
-- are compared as strings.
pub record Uthash : Type 1 where
  pub Table : Type 0
  pub empty : Table
  pub find : Table → Text → Option ℕ
  pub add : Table → Text → ℕ → Table
  pub assign : Table → Text → ℕ → Table
  pub find-empty : (key : Text) → find empty key ≡ none
  pub find-add_self :
      (t : Table) (key : Text) (v : ℕ) → find t key ≡ none → find (add t key v) key ≡ some v
  pub find-add_ne :
      (t : Table) (key other : Text) (v : ℕ)
      → text_eq key other ≡ false
      → find (add t key v) other ≡ find t other
  pub find-assign_self :
      (t : Table) (key : Text) (v w : ℕ) → find t key ≡ some w → find (assign t key v) key ≡ some v
  pub find-assign_ne :
      (t : Table) (key other : Text) (v w : ℕ)
      → find t key ≡ some w
      → text_eq key other ≡ false
      → find (assign t key v) other ≡ find t other
  -- A value that is found was found before, or is the new one.
  pub find-add :
      (t : Table) (key other : Text) (v w : ℕ)
      → find (add t key v) other ≡ some w
      → (w ≡ v) ⊎ (find t other ≡ some w)
  pub find-assign :
      (t : Table) (key other : Text) (v w : ℕ)
      → find (assign t key v) other ≡ some w
      → (w ≡ v) ⊎ (find t other ≡ some w)

-- The entry's key has 64 bytes, of which the last is the NUL.
abbrev pub key_length : ℕ
key_length = 63

module _ (h : Uthash) where
  unfoldable pub put : h.Table → Text → ℕ → h.Table
  put labels key value = elim (h.find labels key) [
    | none ↦ h.add labels (take key_length key) value
    | some old ↦ h.assign labels key value
  ]

  -- `none` is the result 0, which leaves the value as it was.
  unfoldable pub get : h.Table → Text → Option ℕ
  get labels key = h.find labels key
