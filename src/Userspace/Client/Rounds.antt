-- ===== src/Userspace/Client/Rounds.antt =====
-- userspace/src/cpu_emulator_userspace.c and cpu_driver/cpu_emulator_driver.c together: how an
-- instruction reaches the driver, and its answer the client.
use rpi_cpu_emulator_linux_d.Base.{ℕ, ◌^◌, ◌<◌, ◌≡◌, arith}
use rpi_cpu_emulator_linux_d.Base.{pos, true, some}
use rpi_cpu_emulator_linux_d.Uapi.{Instruction, ReadValue}
use rpi_cpu_emulator_linux_d.Driver.Dev.{
  Device, ReadResult, returns, cpu_write, cpu_read, sizeof_write_value,
}
use rpi_cpu_emulator_linux_d.Driver.Dev.Protocol.{Served}
use rpi_cpu_emulator_linux_d.Userspace.Client.{Session, RoundEnv, read_env}
use rpi_cpu_emulator_linux_d.Userspace.Client.{text_index, round, serve}

-- A round that goes through: the client's buffers are copied, the driver serves the read, and the line
-- to print exists.
pub record GoesThrough (count : ℕ) (e : RoundEnv) (s : Session) : Type 0 where
  pub sends : s.write_buf.is_instruction ≡ 1
  pub write_copied : e.write_copied ≡ true
  pub answer_copied : e.answer_copied ≡ true
  pub served : Served (read_env e) s.device
  pub line_exists : text_index s.read_buf.pc < count
  pub count_fits : count < 2 ^ 31

abbrev pub with_pending : Device → Instruction → Device
with_pending d i = record d { pending_instruction = i }

-- The instruction reaches the driver.
pub sent :
    (count : ℕ) (e : RoundEnv) (s : Session)
    → GoesThrough count e s
    → cpu_write sizeof_write_value e.write_copied s.write_buf s.device
      ≡ returns (pos sizeof_write_value, with_pending s.device s.write_buf.instruction)
unfolding cpu_write
sent count e s g = ground (arith, g.write_copied)

-- The driver answers with a structure, and the client serves it.
pub served_round :
    (count : ℕ) (e : RoundEnv) (s : Session) (d : Device) (res : ReadResult) (buf : ReadValue)
    → GoesThrough count e s
    → cpu_read (read_env e) (with_pending s.device s.write_buf.instruction) ≡ returns (res, d)
    → res.buf ≡ some buf
    → round count e s ≡ serve e (record s { device = d; read_buf = buf })
unfolding round
served_round count e s d res buf g reads filled =
    ground (arith, sent count e s g, reads, filled, g.line_exists, g.count_fits)

pub still_served :
    {count : ℕ} {e : RoundEnv} {s : Session}
    → GoesThrough count e s
    → Served (read_env e) (with_pending s.device s.write_buf.instruction)
still_served g = record {
  right_len = g.served.right_len;
  no_signal = g.served.no_signal;
  ready = g.served.ready;
  writable = g.served.writable;
}
