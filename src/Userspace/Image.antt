-- ===== src/Userspace/Image.antt =====
-- userspace/src/assembler.c, `store_machine_code`, against `fetch_next` of
-- userspace/src/cpu_emulator_userspace.c.
use rpi_cpu_emulator_linux_d.Base.{
  ℕ, zero, suc, ◌+◌, ◌*◌, ◌/◌, ◌%◌, ◌^◌, ◌≤◌, ◌<◌, ◌≡◌, ◌⊎◌, inl, inr, refl, ◌∙◌, arith,
}
use rpi_cpu_emulator_linux_d.Base.{
  some, List, [], ◌∷◌, length, get_elem?, lt_of_get_elem?, ltb, if◌then◌else◌, u64,
}
use native.Mathlib.Nat.{zero-add}
use native.Mathlib.Decide.{ℕ_discrete}
use mathlib.Core.Option.{some-injective}
use rpi_cpu_emulator_linux_d.Uapi.{Instruction, instr_size}
use rpi_cpu_emulator_linux_d.Driver.Valid.{FitsInstruction}
use rpi_cpu_emulator_linux_d.Userspace.Memory.{Memory, mem_size, poke, fetch_next}
use rpi_cpu_emulator_linux_d.Userspace.Memory.Words.{load_word_of_bytes, poke_self, poke-ne}

-- `memcpy` of a `uint64_t` to address `a`: the bytes from index `i` on, on a little-endian machine.
unfoldable pub store_word : ℕ → ℕ → ℕ → ℕ → Memory → Memory
store_word a v zero i m = m
store_word a v (suc left) i m = store_word a v left (i + 1) (poke m (a + i) (v / 2 ^ (i * 8) % 256))

-- One round of the loop, at the address `base`.
unfoldable pub store_instruction : Memory → ℕ → Instruction → Memory
store_instruction m base x =
    store_word (base + 3) x.operand2 8 0
      (poke (poke (poke m base x.opcode) (base + 1) x.mode) (base + 2) x.operand1)

unfoldable pub store_from : Memory → ℕ → List Instruction → Memory
store_from m base [] = m
store_from m base (x ∷ xs) = store_from (store_instruction m base x) (base + instr_size) xs

-- Where the program and one more instruction do not fit, nothing is stored.
unfoldable pub store_machine_code : Memory → ℕ → List Instruction → Memory
store_machine_code m memory_size instructions =
    if ltb memory_size (u64 (length instructions * instr_size + instr_size))
    then m
    else store_from m 0 instructions

-- The bytes that `store_word` leaves.
store_word-below :
    (a v left i : ℕ) (m : Memory) (j : ℕ) → j < a + i → store_word a v left i m j ≡ m j
unfolding store_word
store_word-below a v zero i m j h = refl
store_word-below a v (suc left) i m j h =
    store_word-below a v left (i + 1) _ j (omega arith) ∙ poke-ne m _ (omega arith)

store_word-above :
    (a v left i : ℕ) (m : Memory) (j : ℕ) → a + (i + left) ≤ j → store_word a v left i m j ≡ m j
unfolding store_word
store_word-above a v zero i m j h = refl
store_word-above a v (suc left) i m j h =
    store_word-above a v left (i + 1) _ j (omega arith) ∙ poke-ne m _ (omega arith)

store_word-byte :
    (a v left i : ℕ) (m : Memory) (k : ℕ)
    → i ≤ k
    → k < i + left
    → store_word a v left i m (a + k) ≡ v / 2 ^ (k * 8) % 256
unfolding store_word
store_word-byte a v zero i m k p q = absurd (omega arith)
store_word-byte a v (suc left) i m k p q = elim (ℕ_discrete k i) [
  | yes same ↦
      rw same (store_word-below a v left (i + 1) _ (a + i) (omega arith) ∙ poke_self m (a + i) _)
  | no differ ↦ store_word-byte a v left (i + 1) _ k (omega arith) (omega arith)
]

-- One instruction occupies its eleven bytes and no other.
store_instruction-others :
    (m : Memory) (base : ℕ) (x : Instruction) (j : ℕ)
    → (j < base) ⊎ (base + instr_size ≤ j)
    → store_instruction m base x j ≡ m j
unfolding store_instruction poke
store_instruction-others m base x j (inl h) =
    store_word-below (base + 3) x.operand2 8 0 _ j (omega arith) ∙ ground arith
store_instruction-others m base x j (inr h) =
    store_word-above (base + 3) x.operand2 8 0 _ j (omega arith) ∙ ground arith

-- Memory that holds an instruction at an address.
record Holds (m : Memory) (base : ℕ) (x : Instruction) : Type 0 where
  opcode_at : m base ≡ x.opcode
  mode_at : m (base + 1) ≡ x.mode
  operand1_at : m (base + 2) ≡ x.operand1
  operand2_at : (k : ℕ) → k < 8 → m (base + 3 + k) ≡ x.operand2 / 2 ^ (k * 8) % 256

store_instruction-Holds :
    (m : Memory) (base : ℕ) (x : Instruction) → Holds (store_instruction m base x) base x
unfolding store_instruction poke
store_instruction-Holds m base x = record {
  opcode_at = store_word-below (base + 3) x.operand2 8 0 _ base (omega arith) ∙ ground arith;
  mode_at = store_word-below (base + 3) x.operand2 8 0 _ (base + 1) (omega arith) ∙ ground arith;
  operand1_at =
      store_word-below (base + 3) x.operand2 8 0 _ (base + 2) (omega arith) ∙ ground arith;
  operand2_at = λ k lt. store_word-byte (base + 3) x.operand2 8 0 _ k (omega arith) (omega arith);
}

store_from-below :
    (m : Memory) (base : ℕ) (xs : List Instruction) (j : ℕ)
    → j < base
    → store_from m base xs j ≡ m j
unfolding store_from
store_from-below m base [] j h = refl
store_from-below m base (x ∷ xs) j h =
    store_from-below (store_instruction m base x) (base + instr_size) xs j (omega arith)
    ∙ store_instruction-others m base x j (inl h)

pub store_from-above :
    (m : Memory) (base : ℕ) (xs : List Instruction) (j : ℕ)
    → base + length xs * instr_size ≤ j
    → store_from m base xs j ≡ m j
unfolding store_from
store_from-above m base [] j h = refl
store_from-above m base (x ∷ xs) j h =
    store_from-above (store_instruction m base x) (base + instr_size) xs j (omega arith)
    ∙ store_instruction-others m base x j (inr (omega arith))

-- It goes on holding the instruction while other bytes change.
Holds-same :
    (m m' : Memory) (base : ℕ) (x : Instruction)
    → ((j : ℕ) → j < base + instr_size → m' j ≡ m j)
    → Holds m base x
    → Holds m' base x
Holds-same m m' base x same h = record {
  opcode_at = same base (omega arith) ∙ h.opcode_at;
  mode_at = same (base + 1) (omega arith) ∙ h.mode_at;
  operand1_at = same (base + 2) (omega arith) ∙ h.operand1_at;
  operand2_at = λ k lt. same (base + 3 + k) (omega arith) ∙ h.operand2_at k lt;
}

store_from-Holds :
    (m : Memory) (base : ℕ) (xs : List Instruction) (k : ℕ) (x : Instruction)
    → get_elem? xs k ≡ some x
    → Holds (store_from m base xs) (base + k * instr_size) x
unfolding store_from
store_from-Holds m base [] k x h = absurd (cc)
store_from-Holds m base (y ∷ xs) zero x h =
    let here : base ≡ base + 0 * instr_size = omega arith in
    let first : y ≡ x = some-injective y x h in
    rw (← here, ← first)
      (Holds-same (store_instruction m base y) _ base y
        (store_from-below (store_instruction m base y) (base + instr_size) xs)
        (store_instruction-Holds m base y))
store_from-Holds m base (y ∷ xs) (suc k) x h =
    let shift : base + instr_size + k * instr_size ≡ base + suc k * instr_size = omega arith in
    rw shift at (store_from-Holds (store_instruction m base y) (base + instr_size) xs k x h)

fetch_next-Holds :
    (m : Memory) (base : ℕ) (x : Instruction)
    → base + instr_size ≤ mem_size
    → FitsInstruction x
    → Holds m base x
    → fetch_next m base ≡ some x
unfolding fetch_next
fetch_next-Holds m base x le fits h = ground (
  arith,
  h.opcode_at,
  h.mode_at,
  h.operand1_at,
  load_word_of_bytes m (base + 3) x.operand2 fits.operand2_fits h.operand2_at,
)

-- A program that fits the memory with one instruction to spare is stored whole: fetching at the
-- address of its instruction number `k` gives that instruction back, and no byte behind the program
-- changes.
pub fetch_next-store :
    (m : Memory) (xs : List Instruction) (k : ℕ) (x : Instruction)
    → length xs * instr_size + instr_size ≤ mem_size
    → get_elem? xs k ≡ some x
    → FitsInstruction x
    → let m' = store_machine_code m mem_size xs in
      (fetch_next m' (k * instr_size) ≡ some x)
      × ((a : ℕ) → length xs * instr_size ≤ a → m' a ≡ m a)
unfolding store_machine_code
fetch_next-store m xs k x le g fits =
    let stored : store_machine_code m mem_size xs ≡ store_from m 0 xs = ground arith in
    let lt = lt_of_get_elem? xs k g in
    rw stored (
      fetch_next-Holds (store_from m 0 xs) (k * instr_size) x (omega (arith, lt)) fits
          (rw zero-add at (store_from-Holds m 0 xs k x g)),
      λ a h. store_from-above m 0 xs a (omega arith),
    )
