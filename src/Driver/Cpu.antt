-- ===== src/Driver/Cpu.antt =====
-- cpu_driver/cpu_emulator_driver.c: `my_cpu`, its registers and flags, the diodes, and the tests on
-- memory-mapped addresses.
use rpi_cpu_emulator_linux_d.Base.{ℕ, ◌^◌, Bool, Option, none, some, bit_and, bit_or}
use rpi_cpu_emulator_linux_d.Base.{◌==◌, leb, not, if◌then◌else◌, u16, sub64, not32}
use rpi_cpu_emulator_linux_d.Uapi.Opcode.{reg_0, reg_1, reg_2, reg_3}
use rpi_cpu_emulator_linux_d.Uapi.Flag.{cf, zf, sf}

-- A pointer into `cpu->regs`.
pub data Reg : Type 0 where
  r0 r1 r2 r3 : Reg

pub record Regs : Type 0 where
  pub reg0 : ℕ
  pub reg1 : ℕ
  pub reg2 : ℕ
  pub reg3 : ℕ

-- `*reg`
unfoldable pub read_reg : Regs → Reg → ℕ
read_reg s r0 = s.reg0
read_reg s r1 = s.reg1
read_reg s r2 = s.reg2
read_reg s r3 = s.reg3

-- `*reg = v`
unfoldable pub write_reg : Regs → Reg → ℕ → Regs
write_reg s r0 v = record s { reg0 = v }
write_reg s r1 v = record s { reg1 = v }
write_reg s r2 v = record s { reg2 = v }
write_reg s r3 v = record s { reg3 = v }

-- `my_cpu`
pub record Cpu : Type 0 where
  pub regs : Regs
  pub pc : ℕ
  pub fr : ℕ
  pub pending_mem_addr : ℕ
  pub pending_reg_idx : ℕ
  pub pending_mmio_read : ℕ

-- `none` is the NULL pointer.
unfoldable pub get_register : ℕ → Option Reg
get_register reg =
    if reg == reg_0
    then some r0
    else if reg == reg_1
    then some r1
    else if reg == reg_2
    then some r2
    else if reg == reg_3
    then some r3
    else none

-- `cpu->fr |= flag` and `cpu->fr &= ~flag`
unfoldable pub set_flag : ℕ → Cpu → Cpu
set_flag flag c = record c { fr = u16 (bit_or c.fr flag) }

unfoldable pub clear_flag : ℕ → Cpu → Cpu
clear_flag flag c = record c { fr = u16 (bit_and c.fr (not32 flag)) }

-- `cpu->fr & flag` as a condition
unfoldable pub has_flag : ℕ → Cpu → Bool
has_flag flag c = not (bit_and c.fr flag == 0)

-- An `s64` is its 64-bit pattern; it is negative from 2 ^ 63 on.
abbrev pub is_negative64 : ℕ → Bool
is_negative64 w = leb (2 ^ 63) w

unfoldable pub handle_compare : Cpu → ℕ → Cpu
handle_compare c result =
    let c' = if result == 0 then set_flag zf c else clear_flag zf c in
    if is_negative64 result then set_flag cf (set_flag sf c') else clear_flag cf (clear_flag sf c')

-- The signed difference wraps: the kernel is built with `-fno-strict-overflow`.
unfoldable pub handle_compare_immediate : Cpu → Reg → ℕ → Cpu
handle_compare_immediate c reg operand = handle_compare c (sub64 (read_reg c.regs reg) operand)

unfoldable pub handle_compare_register : Cpu → Reg → Reg → Cpu
handle_compare_register c reg1 reg2 =
    handle_compare c (sub64 (read_reg c.regs reg1) (read_reg c.regs reg2))

-- The levels of the four diodes.
pub record Leds : Type 0 where
  pub led0 : ℕ
  pub led1 : ℕ
  pub led2 : ℕ
  pub led3 : ℕ

unfoldable pub diode : ℕ → ℕ → ℕ
diode current prev = if current == prev then 0 else 1

unfoldable pub set_diodes : Cpu → Cpu → Leds
unfolding diode
set_diodes current prev = record {
  led0 = diode current.regs.reg0 prev.regs.reg0;
  led1 = diode current.regs.reg1 prev.regs.reg1;
  led2 = diode current.regs.reg2 prev.regs.reg2;
  led3 = diode current.regs.reg3 prev.regs.reg3;
}

abbrev pub mmio_start : ℕ
mmio_start = 0xFFF0

abbrev pub mmio_input : ℕ
mmio_input = 0xFFFD

abbrev pub mmio_output : ℕ
mmio_output = 0xFFFE

unfoldable pub is_mmio : ℕ → Bool
is_mmio addr = leb mmio_start addr

unfoldable pub is_mmio_input : ℕ → Bool
is_mmio_input addr = addr == mmio_input

unfoldable pub is_mmio_output : ℕ → Bool
is_mmio_output addr = addr == mmio_output
