-- ===== src/Tests/Client.antt =====
-- userspace/src/cpu_emulator_userspace.c, with the driver, on concrete inputs.
use rpi_cpu_emulator_linux_d.Base.{ℕ, ◌%◌, ◌≤◌, ◌<◌, ◌≡◌, ◌⊎◌, arith, some}
use rpi_cpu_emulator_linux_d.Userspace.Memory.{Memory, read_from_memory, write_to_memory}
use rpi_cpu_emulator_linux_d.Userspace.Memory.Words.{IsBytes, read-write_to_memory}

abbrev some_memory : Memory
some_memory a = a % 4

some_memory-IsBytes : IsBytes some_memory
some_memory-IsBytes a = omega arith

read-write_to_memory_example :
    (m : Memory) × (write_to_memory some_memory 0x100 77 ≡ some m)
    × (read_from_memory m 0x100 ≡ some 77)
    × ((a : ℕ) → (a < 0x100) ⊎ (0x108 ≤ a) → m a ≡ some_memory a)
    × IsBytes m
read-write_to_memory_example =
    read-write_to_memory some_memory 0x100 77 (omega arith) (omega arith) some_memory-IsBytes
