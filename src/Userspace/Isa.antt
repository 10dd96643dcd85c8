-- ===== src/Userspace/Isa.antt =====
-- The instruction set as a programmer sees it: registers, two conditions, a program counter, one memory
-- that loads and stores reach directly, and a pin. It is an independent description of what the driver
-- (cpu_driver/cpu_emulator_driver.c) and the client (userspace/src/cpu_emulator_userspace.c) do together.
pub mod Decode
pub mod Agrees
pub mod Cases
pub mod Moves
pub mod Execute
pub mod Round
pub mod Accesses
pub mod Steps
pub mod Run
use rpi_cpu_emulator_linux_d.Base.{
  ℕ, ◌+◌, ◌-◌, ◌*◌, ◌/◌, ◌%◌, ◌^◌, ℤ, pos, Bool, true, false, not, ◌&&◌, Option, none, some, List,
  [], ◌∷◌, ◌++◌, ◌==◌, leb, ltb, if◌then◌else◌,
}
use rpi_cpu_emulator_linux_d.Base.{bit_and, bit_or, add64, sub64, mul64, not64, to_u8}
use rpi_cpu_emulator_linux_d.Uapi.{Instruction, MemAccess, instr_size}
use rpi_cpu_emulator_linux_d.Driver.Cpu.{Reg, Regs, read_reg, write_reg, is_negative64}
use rpi_cpu_emulator_linux_d.Userspace.Memory.{Memory, load_word, fetch_next}
use rpi_cpu_emulator_linux_d.Userspace.Client.{access}

-- The second operand.
pub data Source : Type 0 where
  constant : ℕ → Source
  register : Reg → Source

-- When a jump is taken.
pub data Condition : Type 0 where
  always if_zero if_positive if_negative : Condition

-- Operations inside the processor.
pub data Internal : Type 0 where
  compute : (ℕ → ℕ → ℕ) → Reg → Source → Internal
  complement : Reg → Internal
  compare : Reg → Source → Internal
  jump : Condition → ℕ → Internal
  input : Reg → Internal
  output : Reg → Internal

-- A load or a store whose register does not exist is a `crash`.
pub data Op : Type 0 where
  internal : Internal → Op
  load : Reg → ℕ → Op
  store : Reg → ℕ → Op
  halt : Op
  crash : Op

pub record Core : Type 0 where
  pub regs : Regs
  pub zero : Bool
  pub negative : Bool
  pub pc : ℕ
  pub pin : ℕ

pub record State : Type 0 where
  pub core : Core
  pub memory : Memory
  pub accesses : List MemAccess

abbrev pub value : Regs → Source → ℕ
value s (constant v) = v
value s (register r) = read_reg s r

abbrev pub holds : Condition → Core → Bool
holds always c = true
holds if_zero c = c.zero
holds if_positive c = not c.negative && not c.zero
holds if_negative c = c.negative

abbrev pub next_pc : Core → ℕ
next_pc c = add64 c.pc instr_size

abbrev pub set_reg : Core → Reg → ℕ → Core
set_reg c r v = record c { regs = write_reg c.regs r v; pc = next_pc c }

-- The comparison looks at the wrapped difference. `none` is refused: a pin has two levels.
unfoldable pub apply : ℤ → Internal → Core → Option Core
apply level (compute op r s) c = some (set_reg c r (op (read_reg c.regs r) (value c.regs s)))
apply level (complement r) c = some (set_reg c r (not64 (read_reg c.regs r)))
apply level (compare r s) c =
    let difference = sub64 (read_reg c.regs r) (value c.regs s) in
    some (record c { zero = difference == 0; negative = is_negative64 difference; pc = next_pc c })
apply level (jump condition target) c =
    some (record c { pc = if holds condition c then mul64 target instr_size else next_pc c })
apply level (input r) c = some (set_reg c r (to_u8 level))
apply level (output r) c =
    if read_reg c.regs r == 0
    then some (record c { pin = 0; pc = next_pc c })
    else if read_reg c.regs r == 1
    then some (record c { pin = 1; pc = next_pc c })
    else none

-- The eight bytes of a word in memory, the lowest first.
abbrev pub store_bytes : Memory → ℕ → ℕ → Memory
store_bytes m a v j = if leb a j && ltb j (a + 8) then v / 2 ^ ((j - a) * 8) % 256 else m j

-- Where an operation leads.
pub data After : Type 0 where
  goes : State → After
  halts refuses crashes outside : After

-- The next instruction is fetched in the same step, so its access is listed last.
unfoldable pub perform : ℤ → Option Op → State → After
unfolding apply
perform level none s = refuses
perform level (some halt) s = halts
perform level (some crash) s = crashes
perform level (some (load r a)) s =
    let c = set_reg s.core r (load_word s.memory a) in
    goes (record s { core = c; accesses = s.accesses ++ access a 0 ∷ access c.pc 0 ∷ [] })
perform level (some (store r a)) s =
    let c = record (s.core) { pc = next_pc s.core } in
    goes (record {
      core = c;
      memory = store_bytes s.memory a (read_reg s.core.regs r);
      accesses = s.accesses ++ access a 1 ∷ access c.pc 0 ∷ [];
    })
perform level (some (internal op)) s = elim (apply level op s.core) [
  | none ↦ refuses
  | some c ↦ goes (record s { core = c; accesses = s.accesses ++ access c.pc 0 ∷ [] })
]

-- One step: the instruction at the program counter, and then the next one must lie in the memory.
unfoldable pub lands : After → After
lands (goes a) = elim (fetch_next a.memory a.core.pc) [ none ↦ outside | some i ↦ goes a ]
lands x = x

unfoldable pub steps : (ℤ → State → After) → List ℤ → State → After
steps step [] a = goes a
steps step (level ∷ levels) a = elim (step level a) [
  | goes a' ↦ steps step levels a'
  | halts ↦ halts
  | refuses ↦ refuses
  | crashes ↦ crashes
  | outside ↦ outside
]
