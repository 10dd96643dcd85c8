-- ===== src/Uapi.antt =====
-- cpu_uapi.h: the structures and constants that the kernel modules share with userspace.
-- Padding bytes carry no data and are left out; an integer field is a natural number.
pub mod Opcode
pub mod Mode
pub mod Flag
pub mod Status
use rpi_cpu_emulator_linux_d.Base.{ℕ, ℤ, Bool}

-- One byte of opcode, mode and first operand, eight of second operand.
abbrev pub instr_size : ℕ
instr_size = 11

abbrev pub mmio_halt : ℕ
mmio_halt = 0xFFFF

pub record Instruction : Type 0 where
  pub operand2 : ℕ
  pub operand1 : ℕ
  pub opcode : ℕ
  pub mode : ℕ

pub record WriteValue : Type 0 where
  pub instruction : Instruction
  pub val : ℕ
  pub is_instruction : ℕ

pub record ReadValue : Type 0 where
  pub pc : ℕ
  pub mem_addr : ℕ
  pub val : ℕ
  pub exec_return : ℤ

pub record MemAccess : Type 0 where
  pub addr : ℕ
  pub type : ℕ
