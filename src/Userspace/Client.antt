-- ===== src/Userspace/Client.antt =====
-- userspace/src/cpu_emulator_userspace.c: `run`, the client of the two devices, over the operations of
-- the driver. The accesses that it writes to the trace collector are listed in their order.
pub mod Rounds
pub mod Switches
use rpi_cpu_emulator_linux_d.Base.{
  ◌+◌, ℕ, ◌/◌, ◌%◌, ◌^◌, ℤ, pos, negsuc, is_negative, Bool, true, false, ◌&&◌,
}
use rpi_cpu_emulator_linux_d.Base.{
  Option, none, some, List, [], ◌∷◌, ◌++◌, ltb, leb, ◌==◌, if◌then◌else◌, u32,
}
use rpi_cpu_emulator_linux_d.Uapi.{Instruction, WriteValue, ReadValue, MemAccess, instr_size}
use rpi_cpu_emulator_linux_d.Driver.Dev.{
  Device, Outcome, returns, oops, sleeps, ReadEnv, ReadResult,
}
use rpi_cpu_emulator_linux_d.Driver.Dev.{cpu_write, cpu_read, sizeof_read_value, sizeof_write_value}
use rpi_cpu_emulator_linux_d.Userspace.Memory.{
  Memory, read_from_memory, write_to_memory, fetch_next,
}

-- The variables of `run`, its memory and the driver.
pub record Session : Type 0 where
  pub memory : Memory
  pub device : Device
  pub write_buf : WriteValue
  pub read_buf : ReadValue
  pub traces : List MemAccess

-- Where one round leads. `undefined` is an access outside an array in the client.
pub data Step : Type 0 where
  continues : Session → Step
  exits : ℤ → Session → Step
  kernel_oops blocks undefined : Step

-- What is outside both programs in one round: whether the driver can copy the client's buffers, and
-- what the driver's read meets.
pub record RoundEnv : Type 0 where
  pub write_copied : Bool
  pub answer_copied : Bool
  pub clock_speed : ℕ
  pub interrupted : Bool
  pub input : ℤ
  pub read_copied : Bool

abbrev pub read_env : RoundEnv → ReadEnv
read_env e = record {
  len = sizeof_read_value;
  clock_speed = e.clock_speed;
  interrupted = e.interrupted;
  input = e.input;
  copied = e.read_copied;
}

abbrev pub access : ℕ → ℕ → MemAccess
access a type = record { addr = a; type = type }

-- The end of a round: the next instruction is fetched at the new program counter, and traced.
unfoldable pub fetch_round : Session → Step
fetch_round s = elim (fetch_next s.memory s.read_buf.pc) [
  | none ↦ undefined
  | some i ↦
      let w = record (s.write_buf) { instruction = i } in
      continues (record s { write_buf = w; traces = s.traces ++ access s.read_buf.pc 0 ∷ [] })
]

-- EXEC_PENDING_MEM_READ: the status of the write that answers is not looked at.
unfoldable pub serve_read : RoundEnv → Session → Step
unfolding fetch_round
serve_read e s = elim (read_from_memory s.memory s.read_buf.mem_addr) [
  | none ↦ undefined
  | some v ↦
      let w = record (s.write_buf) { val = v; is_instruction = 0 } in
      elim (cpu_write sizeof_write_value e.answer_copied w s.device) [
        | oops ↦ kernel_oops
        | sleeps ↦ blocks
        | returns (status, d) ↦ fetch_round (record s {
          device = d;
          write_buf = record w { is_instruction = 1 };
          traces = s.traces ++ access s.read_buf.mem_addr 0 ∷ [];
        })
      ]
]

-- EXEC_PENDING_MEM_WRITE
unfoldable pub serve_write : Session → Step
unfolding fetch_round
serve_write s = elim (write_to_memory s.memory s.read_buf.mem_addr s.read_buf.val) [
  | none ↦ undefined
  | some m ↦
      fetch_round (record s { memory = m; traces = s.traces ++ access s.read_buf.mem_addr 1 ∷ [] })
]

-- The `switch` on `read_buf.exec_return`.
unfoldable pub serve : RoundEnv → Session → Step
unfolding fetch_round serve_read serve_write
serve e s = elim (s.read_buf.exec_return) [
  | pos n ↦
      if n == 0
      then fetch_round s
      else if n == 1
      then serve_read e s
      else if n == 2
      then serve_write s
      else if n == 3
      then fetch_round s
      else exits (negsuc 0) s
  | negsuc n ↦ if n == 0 then exits (pos 0) s else exits (negsuc 0) s
]

-- `int i = pc / INSTR_SIZE`: a 32-bit pattern, negative from 2 ^ 31 on.
abbrev pub text_index : ℕ → ℕ
text_index pc = u32 (pc / instr_size)

-- `<=` of two `int`s, from their 32-bit patterns.
abbrev pub int_le : ℕ → ℕ → Bool
int_le a b = leb (u32 (a + 2 ^ 31)) (u32 (b + 2 ^ 31))

-- One round of the loop of `run`; `count` is the number of lines in `instruction_text`, which is
-- passed as an `int`.
unfoldable pub round : ℕ → RoundEnv → Session → Step
unfolding serve
round count e s =
    let i = text_index s.read_buf.pc in
    elim (cpu_write sizeof_write_value e.write_copied s.write_buf s.device) [
      | oops ↦ kernel_oops
      | sleeps ↦ blocks
      | returns (written, d) ↦
          if is_negative written
          then exits (pos 0) (record s { device = d })
          else elim (cpu_read (read_env e) d) [
            | oops ↦ kernel_oops
            | sleeps ↦ blocks
            | returns (r, d') ↦ elim (r.buf) [
              | none ↦ exits (pos 0) (record s { device = d' })
              | some buf ↦
                  let s' = record s { device = d'; read_buf = buf } in
                  if int_le (u32 count) i
                  then exits (pos 0) s'
                  else if leb (2 ^ 31) i
                  then undefined
                  else serve e s'
            ]
          ]
    ]

unfoldable pub rounds : ℕ → List RoundEnv → Session → Step
rounds count [] s = continues s
rounds count (e ∷ es) s = elim (round count e s) [
  | continues s' ↦ rounds count es s'
  | exits status s' ↦ exits status s'
  | kernel_oops ↦ kernel_oops
  | blocks ↦ blocks
  | undefined ↦ undefined
]

abbrev pub zero_read_value : ReadValue
zero_read_value = record { pc = 0; mem_addr = 0; val = 0; exec_return = pos 0 }

-- `run`, from the opened devices on.
unfoldable pub run : ℕ → List RoundEnv → Memory → Device → Step
run count es m d = elim (fetch_next m 0) [
  | none ↦ undefined
  | some i ↦ rounds count es (record {
    memory = m;
    device = d;
    write_buf = record { instruction = i; val = 0; is_instruction = 1 };
    read_buf = zero_read_value;
    traces = access 0 0 ∷ [];
  })
]
