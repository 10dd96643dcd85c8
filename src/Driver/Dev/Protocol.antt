-- ===== src/Driver/Dev/Protocol.antt =====
-- cpu_driver/cpu_emulator_driver.c: `cpu_write` and `cpu_read` together, as the client uses them.
use rpi_cpu_emulator_linux_d.Base.{ℕ, ◌<◌, ◌≡◌, refl, arith, ◌∙◌}
use rpi_cpu_emulator_linux_d.Base.{ℤ, pos, true, false, none, some, add64, if◌then◌else◌}
use rpi_cpu_emulator_linux_d.Uapi.{Instruction, WriteValue, ReadValue, instr_size}
use rpi_cpu_emulator_linux_d.Uapi.Opcode
use rpi_cpu_emulator_linux_d.Uapi.Mode
use rpi_cpu_emulator_linux_d.Uapi.Status
use rpi_cpu_emulator_linux_d.Driver.Cpu.{
  Cpu, Reg, read_reg, write_reg, get_register, set_diodes, is_mmio, mmio_start,
}
use rpi_cpu_emulator_linux_d.Driver.Control.{is_ready, has_step, take_step, pause}
use rpi_cpu_emulator_linux_d.Driver.Exec.{execute_instruction}
use rpi_cpu_emulator_linux_d.Driver.Exec.Exits.{Machine}
use rpi_cpu_emulator_linux_d.Driver.Exec.Mov.{exec_mov, exec_load, exec_store, await_memory}
use rpi_cpu_emulator_linux_d.Driver.Dev.{Device, returns, ReadEnv, ReadResult}
use rpi_cpu_emulator_linux_d.Driver.Dev.{cpu_write, cpu_read, read_tick, fill_read_value, is_einval}
use rpi_cpu_emulator_linux_d.Driver.Dev.{sizeof_read_value, sizeof_write_value}

-- A read that the driver serves: the right length, no signal, a running processor, and a buffer
-- that can be written.
pub record Served (e : ReadEnv) (d : Device) : Type 0 where
  pub right_len : e.len ≡ sizeof_read_value
  pub no_signal : e.interrupted ≡ false
  pub ready : is_ready d.control ≡ true
  pub writable : e.copied ≡ true

execute-mov :
    (input : ℤ) (m : Machine) (i : Instruction)
    → i.opcode ≡ Opcode.mov
    → execute_instruction input m i ≡ exec_mov input m i
unfolding execute_instruction
execute-mov input m i e = rw (e, execute_instruction) refl

-- A load from and a store to ordinary memory only wait.
pub execute-load :
    (input : ℤ) (m : Machine) (i : Instruction)
    → i.opcode ≡ Opcode.mov
    → i.mode ≡ Mode.direct_load
    → i.operand2 < mmio_start
    → execute_instruction input m i ≡ await_memory Status.pending_mem_read m i
unfolding exec_mov exec_load is_mmio
execute-load input m i o md lt = execute-mov input m i o ∙ ground arith

pub execute-store :
    (input : ℤ) (m : Machine) (i : Instruction)
    → i.opcode ≡ Opcode.mov
    → i.mode ≡ Mode.direct_store
    → i.operand2 < mmio_start
    → execute_instruction input m i ≡ await_memory Status.pending_mem_write m i
unfolding exec_mov exec_store is_mmio
execute-store input m i o md lt = execute-mov input m i o ∙ ground arith

pub cpu_read-Served : (e : ReadEnv) (d : Device) → Served e d → cpu_read e d ≡ read_tick e d
unfolding cpu_read
cpu_read-Served e d s = ground arith

-- What the client writes: an instruction, or the value that the driver waits for.
abbrev pub instruction_value : Instruction → WriteValue
instruction_value i = record { instruction = i; val = 0; is_instruction = 1 }

abbrev pub reply_value : Instruction → ℕ → WriteValue
reply_value i v = record { instruction = i; val = v; is_instruction = 0 }

-- The switches behind a tick: a step that was there is taken.
unfoldable pub after_tick : Device → Device
after_tick d = record d { control = if has_step d.control then take_step d.control else d.control }

-- The processor that waits for an access to memory.
abbrev pub waiting : Cpu → Instruction → Cpu
waiting c i = record c {
  pc = add64 c.pc instr_size;
  pending_mem_addr = i.operand2;
  pending_reg_idx = i.operand1;
}

module _ (e : ReadEnv) (d : Device) (s : Served e d) where
  pub tick_of :
      (status : ℤ) (m : Machine) (buf : ReadValue)
      → execute_instruction e.input d.machine d.pending_instruction ≡ (status, m)
      → is_einval status ≡ false
      → fill_read_value status m.cpu ≡ some buf
      → (res : ReadResult) × (res.status ≡ pos sizeof_read_value)
        × (res.buf ≡ some buf)
        × (cpu_read e d ≡ returns (res, record (after_tick d) { machine = m }))
  unfolding read_tick after_tick
  tick_of status m buf x ok filled = (
    record {
      status = pos sizeof_read_value;
      buf = some buf;
      delay = if has_step d.control then none else some (pause e.clock_speed);
    },
    refl,
    refl,
    cpu_read-Served e d s ∙ ground (arith, x, ok, filled),
  )

-- For a read that is served and a first operand that names a register, a load from ordinary memory
-- takes three calls. With the instruction written, the read returns
-- EXEC_PENDING_MEM_READ, its address and the next program counter; writing the value then puts it
-- into the register of the first operand, lights the diodes of the registers that it changes, and
-- leaves the flags, the other registers and the output pin as they were.
pub load_protocol :
    (e : ReadEnv) (d : Device) (r : Reg) (v : ℕ)
    → Served e d
    → let i = d.pending_instruction in
      let c = d.machine.cpu in
      i.opcode ≡ Opcode.mov
      → i.mode ≡ Mode.direct_load
      → i.operand2 < mmio_start
      → get_register i.operand1 ≡ some r
      → (res : ReadResult) × (d1 d2 : Device) × (cpu_read e d ≡ returns (res, d1))
        × (res.buf
            ≡ some (record {
              pc = add64 c.pc instr_size;
              mem_addr = i.operand2;
              val = 0;
              exec_return = Status.pending_mem_read;
            }))
        × (cpu_write sizeof_write_value true (reply_value i v) d1
            ≡ returns (pos sizeof_write_value, d2))
        × (d2.machine.cpu ≡ record (waiting c i) { regs = write_reg c.regs r v })
        × (d2.machine.leds ≡ set_diodes d2.machine.cpu c)
        × (d2.machine.output ≡ d.machine.output)
unfolding await_memory fill_read_value is_einval cpu_write set_diodes
load_protocol e d r v s o md lt op =
    let i = d.pending_instruction in
    let m : Machine = (await_memory Status.pending_mem_read d.machine i).1 in
    let t =
      tick_of e d s Status.pending_mem_read m _ (execute-load e.input d.machine i o md lt) refl
        refl in
    let c : Cpu = record (m.cpu) { regs = write_reg m.cpu.regs r v } in
    (
      t.0,
      record (after_tick d) { machine = m },
      record (after_tick d) { machine = record m { cpu = c; leds = set_diodes c m.cpu } },
      t.3,
      t.2,
      ground (arith, op),
      refl,
      refl,
      refl,
    )

-- For a read that is served and a first operand that names a register, a store to ordinary memory
-- takes one read, which returns EXEC_PENDING_MEM_WRITE, the address, the
-- value of the register and the next program counter, and changes no register, no flag and no pin.
pub store_protocol :
    (e : ReadEnv) (d : Device) (r : Reg)
    → Served e d
    → let i = d.pending_instruction in
      let c = d.machine.cpu in
      i.opcode ≡ Opcode.mov
      → i.mode ≡ Mode.direct_store
      → i.operand2 < mmio_start
      → get_register i.operand1 ≡ some r
      → (res : ReadResult) × (d1 : Device) × (cpu_read e d ≡ returns (res, d1))
        × (res.buf
            ≡ some (record {
              pc = add64 c.pc instr_size;
              mem_addr = i.operand2;
              val = read_reg c.regs r;
              exec_return = Status.pending_mem_write;
            }))
        × (d1.machine.cpu ≡ waiting c i)
        × (d1.machine.output ≡ d.machine.output)
unfolding await_memory fill_read_value is_einval
store_protocol e d r s o md lt op =
    let i = d.pending_instruction in
    let m : Machine = (await_memory Status.pending_mem_write d.machine i).1 in
    let t =
      tick_of e d s Status.pending_mem_write m _ (execute-store e.input d.machine i o md lt) refl
        (ground (arith, op)) in
    (t.0, record (after_tick d) { machine = m }, t.3, t.2, refl, refl)
