-- ===== src/Userspace/Isa/Agrees.antt =====
-- What an execution of the driver must give for an operation of the instruction set.
use rpi_cpu_emulator_linux_d.Base.{ℕ, ◌<◌, ◌≡◌, ◌⊎◌, ℤ, Option, none, some}
use rpi_cpu_emulator_linux_d.Uapi.{Instruction}
use rpi_cpu_emulator_linux_d.Uapi.Opcode
use rpi_cpu_emulator_linux_d.Uapi.Mode
use rpi_cpu_emulator_linux_d.Uapi.Status
use rpi_cpu_emulator_linux_d.Uapi.Flag.{zf, sf}
use rpi_cpu_emulator_linux_d.Driver.Cpu.{Reg, get_register, has_flag, mmio_start}
use rpi_cpu_emulator_linux_d.Driver.Exec.Exits.{Machine}
use rpi_cpu_emulator_linux_d.Userspace.Isa.{Core, Op, apply}

-- What the programmer sees of the processor and the pins.
abbrev pub core_of : Machine → Core
core_of m = record {
  regs = m.cpu.regs;
  zero = has_flag zf m.cpu;
  negative = has_flag sf m.cpu;
  pc = m.cpu.pc;
  pin = m.output;
}

-- An operation that needs nothing from the client has ended.
abbrev pub Ends : ℤ × Machine → Option Core → Type 0
Ends r none = r.0 ≡ Status.einval
Ends r (some c) = ((r.0 ≡ Status.success) ⊎ (r.0 ≡ Status.pending_mmio_read)) × (core_of r.1 ≡ c)

-- An access to ordinary memory.
pub record IsAccess (i : Instruction) (mode : ℕ) (o : Option Reg) : Type 0 where
  pub is_mov : i.opcode ≡ Opcode.mov
  pub has_mode : i.mode ≡ mode
  pub below_mmio : i.operand2 < mmio_start
  pub names : get_register i.operand1 ≡ o

-- The result of an execution on `m` is what the operation demands.
abbrev pub Agrees : ℤ → Machine → Instruction → ℤ × Machine → Option Op → Type 0
Agrees level m i r none = r.0 ≡ Status.einval
Agrees level m i r (some (Op.internal op)) = Ends r (apply level op (core_of m))
Agrees level m i r (some (Op.load reg a)) =
    IsAccess i Mode.direct_load (some reg) × (a ≡ i.operand2)
Agrees level m i r (some (Op.store reg a)) =
    IsAccess i Mode.direct_store (some reg) × (a ≡ i.operand2)
Agrees level m i r (some Op.halt) = r.0 ≡ Status.halt
Agrees level m i r (some Op.crash) =
    IsAccess i Mode.direct_load none ⊎ IsAccess i Mode.direct_store none
