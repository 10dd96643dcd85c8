-- ===== src/Uapi/Flag.antt =====
-- cpu_uapi.h: the flags that the emulator uses. `AF` and `OF` are defined there and never used.
use rpi_cpu_emulator_linux_d.Base.{ℕ}

abbrev pub cf : ℕ
cf = 0x01

abbrev pub zf : ℕ
zf = 0x40

abbrev pub sf : ℕ
sf = 0x80
