-- ===== src/Uapi/Opcode.antt =====
-- cpu_uapi.h: the opcodes, and the numbers of the four registers.
use rpi_cpu_emulator_linux_d.Base.{ℕ}

abbrev pub add : ℕ
add = 0x00

abbrev pub sub : ℕ
sub = 0x01

abbrev pub and : ℕ
and = 0x02

abbrev pub or : ℕ
or = 0x03

abbrev pub not : ℕ
not = 0x04

abbrev pub mov : ℕ
mov = 0x10

abbrev pub cmp : ℕ
cmp = 0x20

abbrev pub jmp : ℕ
jmp = 0x21

abbrev pub je : ℕ
je = 0x22

abbrev pub jg : ℕ
jg = 0x23

abbrev pub jl : ℕ
jl = 0x24

abbrev pub reg_0 : ℕ
reg_0 = 0x00

abbrev pub reg_1 : ℕ
reg_1 = 0x01

abbrev pub reg_2 : ℕ
reg_2 = 0x02

abbrev pub reg_3 : ℕ
reg_3 = 0x03
