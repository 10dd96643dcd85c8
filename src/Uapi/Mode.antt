-- ===== src/Uapi/Mode.antt =====
-- cpu_uapi.h: the addressing modes.
use rpi_cpu_emulator_linux_d.Base.{ℕ}

abbrev pub immediate : ℕ
immediate = 0x00

abbrev pub register : ℕ
register = 0x01

abbrev pub direct_load : ℕ
direct_load = 0x02

abbrev pub direct_store : ℕ
direct_store = 0x03

abbrev pub label : ℕ
label = 0x04
