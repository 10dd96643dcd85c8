-- ===== src/Driver/Dev/Faults.antt =====
-- cpu_driver/cpu_emulator_driver.c: when `cpu_read` and `cpu_write` go through the NULL pointer of
-- `get_register`, what a refused read changes, and the pace of a served one.
use rpi_cpu_emulator_linux_d.Base.{ℕ, ◌≡◌, ◌↔◌, arith, ap}
use rpi_cpu_emulator_linux_d.Base.{ℤ, pos, negsuc, Bool, true, false, none}
use rpi_cpu_emulator_linux_d.Uapi.{Instruction, WriteValue}
use rpi_cpu_emulator_linux_d.Uapi.Status
use rpi_cpu_emulator_linux_d.Driver.Cpu.{Cpu, get_register}
use rpi_cpu_emulator_linux_d.Driver.Control.{is_ready}
use rpi_cpu_emulator_linux_d.Driver.Exec.{execute_instruction}
use rpi_cpu_emulator_linux_d.Driver.Exec.Exits.{Machine}
use rpi_cpu_emulator_linux_d.Driver.Outcome.{Moves, execute-IsOutcome}
use rpi_cpu_emulator_linux_d.Driver.Dev.{Device, returns, oops, ReadEnv, ReadResult}
use rpi_cpu_emulator_linux_d.Driver.Dev.{cpu_write, cpu_read, read_tick, fill_read_value, is_einval}
use rpi_cpu_emulator_linux_d.Driver.Dev.{sizeof_read_value, sizeof_write_value}

fill-none :
    (status : ℤ) (c : Cpu)
    → fill_read_value status c ≡ none
    → (status ≡ Status.pending_mem_write) × (get_register c.pending_reg_idx ≡ none)
unfolding fill_read_value
fill-none (pos n) c h = ground arith
fill-none (negsuc n) c h = cc

fill-pending :
    (c : Cpu)
    → get_register c.pending_reg_idx ≡ none
    → fill_read_value Status.pending_mem_write c ≡ none
unfolding fill_read_value
fill-pending c h = ground arith

is_einval-eq : (status : ℤ) → is_einval status ≡ true → status ≡ Status.einval
unfolding is_einval
is_einval-eq (pos n) h = cc
is_einval-eq (negsuc n) h = ground arith

-- A refused instruction changes neither the processor nor the output pin.
refused_stays :
    {m : Machine} {i : Instruction} {r : ℤ × Machine}
    → Moves m i r
    → r.0 ≡ Status.einval
    → (r.1.cpu ≡ m.cpu) × (r.1.output ≡ m.output)
refused_stays (Moves.next s p) h = ground arith
refused_stays (Moves.jumped s p q o) h = ground arith
refused_stays (Moves.waits s p o) h = ground arith
refused_stays (Moves.has_read s p o) h = ground arith
refused_stays (Moves.stays s p o) h = (p, o)

-- A pending store keeps the number of the register that the instruction names.
store_index :
    {m : Machine} {i : Instruction} {r : ℤ × Machine}
    → Moves m i r
    → r.0 ≡ Status.pending_mem_write
    → r.1.cpu.pending_reg_idx ≡ i.operand1
store_index (Moves.next s p) h = ground arith
store_index (Moves.jumped s p q o) h = ground arith
store_index (Moves.waits s p o) h = ap (λ (c : Cpu). c.pending_reg_idx) p
store_index (Moves.has_read s p o) h = ground arith
store_index (Moves.stays s p o) h = ground arith

-- `cpu_write` dereferences the NULL pointer exactly if it is given a whole structure with a value
-- in it while the register number that waits in the processor names no register.
pub cpu_write_oops :
    (len : ℕ) (copied : Bool) (wv : WriteValue) (d : Device)
    → (cpu_write len copied wv d ≡ oops) ↔ (
        (len ≡ sizeof_write_value)
        × (copied ≡ true)
        × (wv.is_instruction ≡ 0)
        × (get_register d.machine.cpu.pending_reg_idx ≡ none))
unfolding cpu_write
cpu_write_oops len copied wv d = (λ h. ground arith, λ h. ground arith)

-- `cpu_read` dereferences the NULL pointer exactly if it is served (the right length, no signal,
-- the switches let it run) and executes a store to memory whose first operand names no register.
pub cpu_read_oops :
    (e : ReadEnv) (d : Device)
    → (cpu_read e d ≡ oops) ↔ (
        (e.len ≡ sizeof_read_value)
        × (e.interrupted ≡ false)
        × (is_ready d.control ≡ true)
        × ((execute_instruction e.input d.machine d.pending_instruction).0
            ≡ Status.pending_mem_write)
        × (get_register d.pending_instruction.operand1 ≡ none))
unfolding cpu_read read_tick
cpu_read_oops e d =
    let r = execute_instruction e.input d.machine d.pending_instruction in
    let outcome = execute-IsOutcome e.input d.machine d.pending_instruction in
    (
      λ h. ground (arith, fill-none r.0 r.1.cpu, store_index outcome.moves),
      λ h. ground (arith, store_index outcome.moves h.3, fill-pending r.1.cpu),
    )

-- A read that returns -EINVAL leaves the processor, the output pin and the pending instruction as
-- they were.
pub cpu_read-einval :
    (e : ReadEnv) (d : Device) {res : ReadResult} {d' : Device}
    → cpu_read e d ≡ returns (res, d')
    → res.status ≡ Status.einval
    → (d'.machine.cpu ≡ d.machine.cpu)
      × (d'.machine.output ≡ d.machine.output)
      × (d'.pending_instruction ≡ d.pending_instruction)
unfolding cpu_read read_tick
cpu_read-einval e d h refused =
    let r = execute_instruction e.input d.machine d.pending_instruction in
    let outcome = execute-IsOutcome e.input d.machine d.pending_instruction in
    ground (arith, is_einval-eq r.0, refused_stays outcome.moves)
