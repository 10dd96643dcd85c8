-- ===== src/Userspace/Memory.antt =====
-- userspace/src/cpu_emulator_userspace.c: the simulated memory and its accesses. Addresses are
-- `uint64_t`; `none` is an access outside the array, which C leaves undefined.
pub mod Words
use rpi_cpu_emulator_linux_d.Base.{ℕ, zero, suc, ◌+◌, ◌*◌, ◌/◌, ◌^◌, ◌≤◌, ◌<◌, ◌≡◌, arith}
use rpi_cpu_emulator_linux_d.Base.{Option, none, some, bit_and, bit_or, ltb, ◌==◌, if◌then◌else◌}
use rpi_cpu_emulator_linux_d.Base.{add64, u64, u8}
use rpi_cpu_emulator_linux_d.Uapi.{Instruction}

abbrev pub mem_size : ℕ
mem_size = 0x10000

-- The byte at each address of the array.
abbrev pub Memory : Type 0
Memory = ℕ → ℕ

-- `memory[a]` and `memory[a] = v`
unfoldable pub peek : Memory → ℕ → Option ℕ
peek m a = if ltb a mem_size then some (m a) else none

unfoldable pub poke : Memory → ℕ → ℕ → Memory
poke m a v j = if a == j then v else m j

unfoldable pub poke_checked : Memory → ℕ → ℕ → Option Memory
poke_checked m a v = if ltb a mem_size then some (poke m a v) else none

-- The loop of `read_from_memory` at index `i`, with `left` bytes to go.
unfoldable pub read_bytes : Memory → ℕ → ℕ → ℕ → ℕ → Option ℕ
read_bytes m address zero i value = some value
read_bytes m address (suc left) i value = elim (peek m (add64 address i)) [
  | none ↦ none
  | some b ↦ read_bytes m address left (i + 1) (bit_or value (u64 (b * 2 ^ (i * 8))))
]

unfoldable pub read_from_memory : Memory → ℕ → Option ℕ
read_from_memory m address = read_bytes m address 8 0 0

unfoldable pub write_bytes : ℕ → ℕ → ℕ → ℕ → Memory → Option Memory
write_bytes address value zero i m = some m
write_bytes address value (suc left) i m =
    elim (poke_checked m (add64 address i) (bit_and (value / 2 ^ (i * 8)) 0xFF)) [
      | none ↦ none
      | some m' ↦ write_bytes address value left (i + 1) m'
    ]

unfoldable pub write_to_memory : Memory → ℕ → ℕ → Option Memory
write_to_memory m address value = write_bytes address value 8 0 m

-- The `uint64_t` that `memcpy` makes of eight bytes, on a little-endian machine.
unfoldable pub word_of : (b0 b1 b2 b3 b4 b5 b6 b7 : ℕ) → ℕ
word_of b0 b1 b2 b3 b4 b5 b6 b7 =
    b0
    + b1 * 2 ^ 8
    + b2 * 2 ^ 16
    + b3 * 2 ^ 24
    + b4 * 2 ^ 32
    + b5 * 2 ^ 40
    + b6 * 2 ^ 48
    + b7 * 2 ^ 56

unfoldable pub load_word : Memory → ℕ → ℕ
unfolding word_of
load_word m a =
    word_of (m a) (m (a + 1)) (m (a + 2)) (m (a + 3)) (m (a + 4)) (m (a + 5)) (m (a + 6))
      (m (a + 7))

-- `fetch_next`; the eleven bytes are read in one piece, so the check is on the last.
unfoldable pub fetch_next : Memory → ℕ → Option Instruction
unfolding load_word
fetch_next m pc =
    if ltb (pc + 10) mem_size
    then some (record {
      operand2 = load_word m (pc + 3);
      operand1 = m (pc + 2);
      opcode = m pc;
      mode = m (pc + 1);
    })
    else none
