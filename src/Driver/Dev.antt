-- ===== src/Driver/Dev.antt =====
-- cpu_driver/cpu_emulator_driver.c: the operations of the character device, for one open file.
pub mod Protocol
pub mod Faults
use rpi_cpu_emulator_linux_d.Base.{ℕ, ℤ, pos, is_negative, Bool, true, false, Option, none, some}
use rpi_cpu_emulator_linux_d.Base.{◌==◌, not, if◌then◌else◌}
use rpi_cpu_emulator_linux_d.Uapi.{Instruction, WriteValue, ReadValue}
use rpi_cpu_emulator_linux_d.Uapi.Status
use rpi_cpu_emulator_linux_d.Driver.Cpu.{Cpu, Regs, Reg, Leds, read_reg, write_reg, get_register}
use rpi_cpu_emulator_linux_d.Driver.Cpu.{set_diodes}
use rpi_cpu_emulator_linux_d.Driver.Control.{Control, has_step, is_ready, take_step, Delay, pause}
use rpi_cpu_emulator_linux_d.Driver.Exec.{execute_instruction}
use rpi_cpu_emulator_linux_d.Driver.Exec.Exits.{Machine}

-- `cpu_context` of the file, with the pins and the switches that all files share.
pub record Device : Type 0 where
  pub machine : Machine
  pub pending_instruction : Instruction
  pub control : Control

-- A system call returns, dereferences the NULL pointer, or sleeps.
pub data Outcome (A : Type 0) : Type 0 where
  returns : A → Outcome A
  oops : Outcome A
  sleeps : Outcome A

abbrev pub sizeof_write_value : ℕ
sizeof_write_value = 32

abbrev pub sizeof_read_value : ℕ
sizeof_read_value = 32

-- What `kzalloc` gives: the opcode 0 is `ADD`, with the mode IMMEDIATE.
abbrev pub zero_instruction : Instruction
zero_instruction = record { operand2 = 0; operand1 = 0; opcode = 0; mode = 0 }

abbrev pub zero_cpu : Cpu
zero_cpu = record {
  regs = record { reg0 = 0; reg1 = 0; reg2 = 0; reg3 = 0 };
  pc = 0;
  fr = 0;
  pending_mem_addr = 0;
  pending_reg_idx = 0;
  pending_mmio_read = 0;
}

abbrev pub fresh_device : Leds → ℕ → Control → Device
fresh_device leds output control = record {
  machine = record { cpu = zero_cpu; leds = leds; output = output };
  pending_instruction = zero_instruction;
  control = control;
}

-- `cpu_open`, from the levels of the two switches and whether `kzalloc` succeeds: the status, the
-- switches, and the new file.
unfoldable pub cpu_open : ℤ → ℤ → Bool → Leds → ℕ → Control → ℤ × Control × Option Device
cpu_open run_sw pause_sw allocated leds output c =
    if is_negative run_sw
    then (run_sw, c, none)
    else let c' = record c { running = run_sw; paused = pause_sw } in
      if not allocated
      then (Status.enomem, c', none)
      else (pos 0, c', some (fresh_device leds output c'))

-- `cpu_release`: the context is freed.
unfoldable pub cpu_release : Option Device → ℤ × Option Device
cpu_release d = (pos 0, none)

-- `cpu_write`, from the length, whether `copy_from_user` succeeds, and what it copies.
unfoldable pub cpu_write : ℕ → Bool → WriteValue → Device → Outcome (ℤ × Device)
cpu_write len copied wv d =
    if not (len == sizeof_write_value)
    then returns (Status.einval, d)
    else if not copied
    then returns (Status.efault, d)
    else if not (wv.is_instruction == 0)
    then returns (pos len, record d { pending_instruction = wv.instruction })
    else let m = d.machine in
      elim (get_register m.cpu.pending_reg_idx) [
        | none ↦ oops
        | some reg ↦
            let c = record (m.cpu) { regs = write_reg m.cpu.regs reg wv.val } in
            returns
              (pos len, record d { machine = record m { cpu = c; leds = set_diodes c m.cpu } })
      ]

-- What a read leaves with the caller: the status, the structure if it was copied, and the sleep
-- of the clock tick if there was one.
pub record ReadResult : Type 0 where
  pub status : ℤ
  pub buf : Option ReadValue
  pub delay : Option Delay

-- The structure that is copied back, from the result of the execution; `none` is a read through
-- the NULL pointer.
unfoldable pub fill_read_value : ℤ → Cpu → Option ReadValue
fill_read_value (pos n) c =
    if n == 1
    then some (record { pc = c.pc; mem_addr = c.pending_mem_addr; val = 0; exec_return = pos n })
    else if n == 2
    then elim (get_register c.pending_reg_idx) [
      | none ↦ none
      | some reg ↦ some (record {
        pc = c.pc;
        mem_addr = c.pending_mem_addr;
        val = read_reg c.regs reg;
        exec_return = pos n;
      })
    ]
    else if n == 3
    then some (record { pc = c.pc; mem_addr = 0; val = c.pending_mmio_read; exec_return = pos n })
    else some (record { pc = c.pc; mem_addr = 0; val = 0; exec_return = pos n })
fill_read_value status c = some (record { pc = c.pc; mem_addr = 0; val = 0; exec_return = status })

-- `exec_res == -EINVAL`
unfoldable pub is_einval : ℤ → Bool
is_einval (pos n) = false
is_einval (ℤ.negsuc n) = n == 21

-- What is outside the driver in one read: the length asked for, the value of `clock_speed`,
-- whether a signal ends the wait, the level of the input pin, and whether `copy_to_user` succeeds.
pub record ReadEnv : Type 0 where
  pub len : ℕ
  pub clock_speed : ℕ
  pub interrupted : Bool
  pub input : ℤ
  pub copied : Bool

-- The part of `cpu_read` behind the wait.
unfoldable pub read_tick : ReadEnv → Device → Outcome (ReadResult × Device)
unfolding has_step take_step pause is_einval
read_tick e d =
    let stepped = has_step d.control in
    let control = if stepped then take_step d.control else d.control in
    let delay = if stepped then none else some (pause e.clock_speed) in
    let (exec_res, machine) = execute_instruction e.input d.machine d.pending_instruction in
    let d' = record d { machine = machine; control = control } in
    if is_einval exec_res
    then returns (record { status = Status.einval; buf = none; delay = delay }, d')
    else elim (fill_read_value exec_res machine.cpu) [
      | none ↦ oops
      | some buf ↦
          if not e.copied
          then returns (record { status = Status.efault; buf = none; delay = delay }, d')
          else returns (record { status = pos e.len; buf = some buf; delay = delay }, d')
    ]

-- The switches are those that the wait finds when it returns.
unfoldable pub cpu_read : ReadEnv → Device → Outcome (ReadResult × Device)
unfolding is_ready
cpu_read e d =
    if not (e.len == sizeof_read_value)
    then returns (record { status = Status.einval; buf = none; delay = none }, d)
    else if e.interrupted
    then returns (record { status = Status.erestartsys; buf = none; delay = none }, d)
    else if not (is_ready d.control)
    then sleeps
    else read_tick e d
