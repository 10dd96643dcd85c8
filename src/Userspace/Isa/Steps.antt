-- ===== src/Userspace/Isa/Steps.antt =====
-- userspace/src/cpu_emulator_userspace.c and cpu_driver/cpu_emulator_driver.c together: one round of
-- the client for each operation of the instruction set.
use rpi_cpu_emulator_linux_d.Base.{
  ℕ, ◌≡◌, inl, inr, refl, sym, ◌∙◌, arith, Option, none, some, Option-cases,
}
use mathlib.Core.Path.{subst}
use rpi_cpu_emulator_linux_d.Uapi.{Instruction}
use rpi_cpu_emulator_linux_d.Uapi.Mode
use rpi_cpu_emulator_linux_d.Uapi.Status
use rpi_cpu_emulator_linux_d.Driver.Exec.{execute_instruction}
use rpi_cpu_emulator_linux_d.Driver.Exec.Exits.{Machine}
use rpi_cpu_emulator_linux_d.Driver.Exec.Mov.{await_memory}
use rpi_cpu_emulator_linux_d.Driver.Dev.{Device, cpu_write, read_tick, fill_read_value, is_einval}
use rpi_cpu_emulator_linux_d.Driver.Dev.Protocol.{
  cpu_read-Served, after_tick, execute-load, execute-store,
}
use rpi_cpu_emulator_linux_d.Userspace.Memory.Words.{read_from_memory-load}
use rpi_cpu_emulator_linux_d.Userspace.Client.{
  Session, kernel_oops, RoundEnv, read_env, round, serve, serve_read,
}
use rpi_cpu_emulator_linux_d.Userspace.Client.Rounds.{GoesThrough, with_pending, sent, still_served}
use rpi_cpu_emulator_linux_d.Userspace.Isa.{Op, Internal, State, apply, perform}
use rpi_cpu_emulator_linux_d.Userspace.Isa.Agrees.{Ends, IsAccess, Agrees}
use rpi_cpu_emulator_linux_d.Userspace.Isa.Round.{
  Shows, Represents, Matches, refused_round, answered_round, halted_round, ended_round,
}
use rpi_cpu_emulator_linux_d.Userspace.Isa.Accesses.{loaded_round, stored_round}

module _ (count : ℕ) (e : RoundEnv) (s : Session) (a : State) (rep : Represents s a)
    (g : GoesThrough count e s) where
  abbrev i : Instruction
  i = s.write_buf.instruction

  abbrev m : Machine
  m = s.device.machine

  abbrev d : Device
  d = with_pending s.device i

  abbrev h : Shows s a
  h = rep.shows

  -- A register that does not exist faults in the driver: for a load when the value arrives, for a store
  -- when the structure for the client is filled in.
  crashed_load : IsAccess i Mode.direct_load none → round count e s ≡ kernel_oops
  unfolding serve serve_read await_memory fill_read_value is_einval cpu_write after_tick
  crashed_load x =
      let m' = (await_memory Status.pending_mem_read m i).1 in
      let loaded =
        read_from_memory-load s.memory i.operand2 (omega (arith, x.below_mmio)) h.bytes in
      answered_round count e s a rep g Status.pending_mem_read m'
        (record {
          pc = m'.cpu.pc;
          mem_addr = i.operand2;
          val = 0;
          exec_return = Status.pending_mem_read;
        })
        (execute-load e.input m i x.is_mov x.has_mode x.below_mmio) refl refl
      ∙ ground (arith, loaded, g.answer_copied, x.names)

  crashed_store : IsAccess i Mode.direct_store none → round count e s ≡ kernel_oops
  unfolding round read_tick await_memory fill_read_value is_einval
  crashed_store x = ground (
    arith,
    sent count e s g,
    cpu_read-Served (read_env e) d (still_served g),
    execute-store e.input m i x.is_mov x.has_mode x.below_mmio,
    x.names,
  )

  internal_round :
      (op : Internal)
      → Ends (execute_instruction e.input m i) (apply e.input op a.core)
      → Matches (round count e s) (perform e.input (some (Op.internal op)) a)
  unfolding perform
  internal_round op ends = elim (Option-cases (apply e.input op a.core)) [
    | inl none_left ↦
        rw (perform, none_left) (refused_round count e s a rep g (rw none_left at ends))
    | inr (c, left) ↦ rw (perform, left) (ended_round count e s a rep g c (rw left at ends))
  ]

  pub round-Matches :
      (o : Option Op)
      → Agrees e.input m i (execute_instruction e.input m i) o
      → Matches (round count e s) (perform e.input o a)
  unfolding perform
  round-Matches none x = refused_round count e s a rep g x
  round-Matches (some Op.halt) x = halted_round count e s a rep g x
  round-Matches (some Op.crash) (inl x) = crashed_load x
  round-Matches (some Op.crash) (inr x) = crashed_store x
  round-Matches (some (Op.load r address)) (x, same) =
      subst (λ t. Matches (round count e s) (perform e.input (some (Op.load r t)) a)) (sym same)
        (loaded_round count e s a rep g r x)
  round-Matches (some (Op.store r address)) (x, same) =
      subst (λ t. Matches (round count e s) (perform e.input (some (Op.store r t)) a)) (sym same)
        (stored_round count e s a rep g r x)
  round-Matches (some (Op.internal op)) x =
      internal_round op
        (subst (λ t. Ends (execute_instruction e.input m i) (apply e.input op t)) h.core x)
