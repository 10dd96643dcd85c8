-- ===== src/Userspace/Memory/Words.antt =====
-- userspace/src/cpu_emulator_userspace.c: the loops over eight bytes read and write one word.
use rpi_cpu_emulator_linux_d.Base.{
  ℕ, zero, suc, ◌+◌, ◌*◌, ◌/◌, ◌%◌, ◌^◌, ◌≤◌, ◌<◌, ◌≡◌, ◌≢◌, ◌⊎◌, inl, refl, ap, ◌∙◌, arith,
}
use rpi_cpu_emulator_linux_d.Base.{some, bit_and, bit_or, bit_or-packed, bit_and-low_mask}
use native.Mathlib.Decide.{ℕ_discrete}
use rpi_cpu_emulator_linux_d.Base.{add64, u64}
use rpi_cpu_emulator_linux_d.Userspace.Memory.{
  Memory, mem_size, peek, poke, poke_checked, read_bytes,
}
use rpi_cpu_emulator_linux_d.Userspace.Memory.{
  read_from_memory, write_bytes, write_to_memory, word_of, load_word,
}

-- Every byte is one.
abbrev pub IsBytes : Memory → Type 0
IsBytes m = (a : ℕ) → m a < 256

pub poke_self : (m : Memory) (a v : ℕ) → poke m a v a ≡ v
unfolding poke
poke_self m a v = ground arith

pub poke-ne : (m : Memory) {a j : ℕ} (v : ℕ) → a ≢ j → poke m a v j ≡ m j
unfolding poke
poke-ne m v ne = ground arith

pub poke-IsBytes : (m : Memory) (a v : ℕ) → v < 256 → IsBytes m → IsBytes (poke m a v)
unfolding poke
poke-IsBytes m a v lt h j = ground (arith, h j)

-- The little-endian bytes of a word make the word.
pub load_word_of_bytes :
    (m : Memory) (a v : ℕ)
    → v < 2 ^ 64
    → ((k : ℕ) → k < 8 → m (a + k) ≡ v / 2 ^ (k * 8) % 256)
    → load_word m a ≡ v
unfolding load_word word_of
load_word_of_bytes m a v fits h = omega (
  arith,
  ap m {x = a} {y = a + 0} (omega arith),
  h 0 (omega arith),
  h 1 (omega arith),
  h 2 (omega arith),
  h 3 (omega arith),
  h 4 (omega arith),
  h 5 (omega arith),
  h 6 (omega arith),
  h 7 (omega arith),
)

module _ (m : Memory) (address : ℕ) (inside : address + 8 ≤ mem_size) where
  read_step :
      (left i value next : ℕ)
      → i < 8
      → bit_or value (u64 (m (address + i) * 2 ^ (i * 8))) ≡ next
      → read_bytes m address (suc left) i value ≡ read_bytes m address left (i + 1) next
  unfolding read_bytes peek
  read_step left i value next lt e =
      let at : add64 address i ≡ address + i = omega arith in ground (arith, at, e)

  -- One more byte, above those that are there.
  or_byte :
      (k value b : ℕ)
      → value < 2 ^ k
      → b * 2 ^ k < 2 ^ 64
      → bit_or value (u64 (b * 2 ^ k)) ≡ value + b * 2 ^ k
  or_byte k value b fits small =
      ap (bit_or value) {x = u64 (b * 2 ^ k)} {y = b * 2 ^ k} (omega arith)
      ∙ bit_or-packed k b value fits

  pub read_from_memory-load : IsBytes m → read_from_memory m address ≡ some (load_word m address)
  unfolding read_from_memory load_word word_of read_bytes
  read_from_memory-load bytes =
      let v0 : ℕ = m (address + 0) in
      let v1 : ℕ = v0 + m (address + 1) * 2 ^ 8 in
      let v2 : ℕ = v1 + m (address + 2) * 2 ^ 16 in
      let v3 : ℕ = v2 + m (address + 3) * 2 ^ 24 in
      let v4 : ℕ = v3 + m (address + 4) * 2 ^ 32 in
      let v5 : ℕ = v4 + m (address + 5) * 2 ^ 40 in
      let v6 : ℕ = v5 + m (address + 6) * 2 ^ 48 in
      let v7 : ℕ = v6 + m (address + 7) * 2 ^ 56 in
      let b0 = bytes (address + 0) in
      let b1 = bytes (address + 1) in
      let b2 = bytes (address + 2) in
      let b3 = bytes (address + 3) in
      let b4 = bytes (address + 4) in
      let b5 = bytes (address + 5) in
      let b6 = bytes (address + 6) in
      let b7 = bytes (address + 7) in
      read_step 7 0 0 v0 (omega arith)
        (or_byte 0 0 (m (address + 0)) (omega arith) (omega arith) ∙ omega arith)
      ∙ read_step 6 1 v0 v1 (omega arith)
          (or_byte 8 v0 (m (address + 1)) (omega arith) (omega arith))
      ∙ read_step 5 2 v1 v2 (omega arith)
          (or_byte 16 v1 (m (address + 2)) (omega arith) (omega arith))
      ∙ read_step 4 3 v2 v3 (omega arith)
          (or_byte 24 v2 (m (address + 3)) (omega arith) (omega arith))
      ∙ read_step 3 4 v3 v4 (omega arith)
          (or_byte 32 v3 (m (address + 4)) (omega arith) (omega arith))
      ∙ read_step 2 5 v4 v5 (omega arith)
          (or_byte 40 v4 (m (address + 5)) (omega arith) (omega arith))
      ∙ read_step 1 6 v5 v6 (omega arith)
          (or_byte 48 v5 (m (address + 6)) (omega arith) (omega arith))
      ∙ read_step 0 7 v6 v7 (omega arith)
          (or_byte 56 v6 (m (address + 7)) (omega arith) (omega arith))
      ∙ ap (λ t. some (t)) {x = v7} {y = load_word m address}
          (omega (arith, ap m {x = address + 0} {y = address} (omega arith)))

module _ (address : ℕ) (inside : address + 8 ≤ mem_size) where
  write_step :
      (value left i b : ℕ) (m' : Memory)
      → i < 8
      → bit_and (value / 2 ^ (i * 8)) 0xFF ≡ b
      → write_bytes address value (suc left) i m'
        ≡ write_bytes address value left (i + 1) (poke m' (address + i) b)
  unfolding write_bytes poke_checked
  write_step value left i b m' lt e =
      let at : add64 address i ≡ address + i = omega arith in ground (arith, at, e)

  -- What the loop of `write_to_memory` has stored from index `i` on.
  record Stored (value left i : ℕ) (before after : Memory) : Type 0 where
    byte : (k : ℕ) → i ≤ k → k < i + left → after (address + k) ≡ value / 2 ^ (k * 8) % 256
    others : (a : ℕ) → (a < address + i) ⊎ (address + (i + left) ≤ a) → after a ≡ before a
    keeps : IsBytes before → IsBytes after

  write_bytes-Stored :
      (value left i : ℕ) (before : Memory)
      → i + left ≤ 8
      → (after : Memory) × (write_bytes address value left i before ≡ some after)
        × Stored value left i before after
  write_bytes-Stored value zero i before le = (
    before,
    unfold write_bytes in refl,
    record { byte = λ k p q. absurd (omega arith); others = λ a h. refl; keeps = λ h. h },
  )
  write_bytes-Stored value (suc left) i before le =
      let b : ℕ = value / 2 ^ (i * 8) % 256 in
      let middle : Memory = poke before (address + i) b in
      let (after, e, st) = write_bytes-Stored value left (i + 1) middle (omega arith) in
      (
        after,
        write_step value left i b before (omega arith) (bit_and-low_mask 8 (value / 2 ^ (i * 8)))
            ∙ e,
        record {
          byte = λ k p q. elim (ℕ_discrete k i) [
            | yes same ↦
                rw same
                  (st.others (address + i) (inl (omega arith)) ∙ poke_self before (address + i) b)
            | no differ ↦ st.byte k (omega arith) (omega arith)
          ];
          others = λ a h. st.others a (ground arith) ∙ poke-ne before b (ground arith);
          keeps = λ h. st.keeps (poke-IsBytes before (address + i) b (omega arith) h);
        },
      )

-- `write_to_memory` on a word whose eight bytes lie in the memory succeeds, keeps every other byte,
-- and `read_from_memory` then gives the word back.
pub read-write_to_memory :
    (m : Memory) (address value : ℕ)
    → address + 8 ≤ mem_size
    → value < 2 ^ 64
    → IsBytes m
    → (m' : Memory) × (write_to_memory m address value ≡ some m')
      × (read_from_memory m' address ≡ some value)
      × ((a : ℕ) → (a < address) ⊎ (address + 8 ≤ a) → m' a ≡ m a)
      × IsBytes m'
unfolding write_to_memory
read-write_to_memory m address value inside fits bytes =
    let (m', e, st) = write_bytes-Stored address inside value 8 0 m (omega arith) in
    (
      m',
      e,
      read_from_memory-load m' address inside (st.keeps bytes)
          ∙ ap some (
              load_word_of_bytes m' address value fits
                (λ k lt. st.byte k (omega arith) (omega arith))),
      λ a h. st.others a (ground arith),
      st.keeps bytes,
    )

-- The bytes that `write_to_memory` leaves.
pub write_to_memory_bytewise :
    (m : Memory) (address value : ℕ)
    → address + 8 ≤ mem_size
    → IsBytes m
    → (m' : Memory) × (write_to_memory m address value ≡ some m')
      × ((k : ℕ) → k < 8 → m' (address + k) ≡ value / 2 ^ (k * 8) % 256)
      × ((a : ℕ) → (a < address) ⊎ (address + 8 ≤ a) → m' a ≡ m a)
      × IsBytes m'
unfolding write_to_memory
write_to_memory_bytewise m address value inside bytes =
    let (m', e, st) = write_bytes-Stored address inside value 8 0 m (omega arith) in
    (
      m',
      e,
      λ k lt. st.byte k (omega arith) (omega arith),
      λ a h. st.others a (ground arith),
      st.keeps bytes,
    )

pub load_word-lt : (m : Memory) (a : ℕ) → IsBytes m → load_word m a < 2 ^ 64
unfolding load_word word_of
load_word-lt m a b =
    omega (arith, b a, b (a + 1), b (a + 2), b (a + 3), b (a + 4), b (a + 5), b (a + 6), b (a + 7))
