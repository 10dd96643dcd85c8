-- ===== src/Lib.antt =====
-- A CPU emulator for the Raspberry Pi: a kernel module that executes instructions, a kernel module
-- that collects the trace of memory accesses, and a userspace program that assembles a program,
-- serves its memory accesses, and simulates caches on the trace.
--
-- How the parts interact. The client (userspace/src/cpu_emulator_userspace.c) writes an instruction
-- to the CPU device (cpu_driver/cpu_emulator_driver.c) and reads its result. A load or store to
-- ordinary memory comes back as a pending access, which the client serves from its own memory; a
-- load is answered by a second write. Every access and every fetch is also written to the trace
-- device (trace_collector_driver/trace_collector_driver.c), from which the cache simulator
-- (userspace/src/cache_simulator.c) reads it. Interrupt threads for the run, pause and step
-- switches change the condition on which a read of the CPU device sleeps.
--
-- The files.
--   Base: shared names, lists and Boolean tests over the native numbers, `int` values, words, bits.
--   Uapi: cpu_uapi.h.
--   Driver/Cpu: my_cpu, get_register, handle_compare, set_diodes, is_mmio.
--   Driver/Exec: execute_instruction, with a definition for each case of its switch (Alu, Mov, Jump)
--     and its common exits (Exits). The state is the processor, the diodes and the output pin; the
--     level of the input pin is an argument.
--   Driver/Control: run_irq_thread, pause_irq_thread, step_irq_thread, the wait condition and pause.
--   Driver/Dev: cpu_open, cpu_release, cpu_write and cpu_read. A system call returns, dereferences NULL, or sleeps.
--   Kernel: what the modules take from the kernel and give back, and the steps of an initialisation.
--   Driver/Init: gpio_init, chrdev_init, cpu_init and cpu_exit. What the kernel answers is an argument;
--     the state is what the module holds. Driver/Init/Loads and Outcome: its proofs.
--   Trace/Init: trace_init and trace_exit.
--   Driver/Flags, Cases, Valid, Outcome, Branch, Control/Wake, Dev/Protocol, Dev/Faults: proofs.
--   Trace/Buffer and Trace/Device: trace_buffer_push, trace_write and trace_read. A pointer to a chunk
--     is its position in the list, which only grows at its tail.
--   Trace/Log, Chunks, Push, Seek, Read, History: the log that the buffer stands for, and the proofs.
--   Assembler/Text, Number, Labels, Parse, Passes: userspace/src/assembler.c, the string functions,
--     parse_int, put and get, parse_line, and the two passes of parse_assembly over the lines that fgets
--     gives. The table of labels is an interface with the laws of uthash.h.
--   Assembler/Loaded, Jumps: a program on its way from its lines to the instructions that are fetched.
--   Userspace/Memory: read_from_memory, write_to_memory, fetch_next. Userspace/Image:
--     store_machine_code of userspace/src/assembler.c. Userspace/Client: run, as rounds of one loop on
--     the client's variables and the driver's state. Client/Switches: what a round leaves of the switches.
--   Userspace/Isa: the instruction set as a programmer sees it, written independently of the driver and
--     the client. Isa/Decode: its encodings. Isa/Agrees, Cases, Moves, Execute: against execute_instruction.
--     Isa/Round, Accesses, Steps, Run: against the rounds of run, with both programs and their protocol.
--   Cache/Geometry, Level, Optimal, Access: fast_log2, is_power_of_two, cache_init, cache_access,
--     find_optimal_victim and the loop of run_cache_sim; their child modules hold the proofs.
--   Cache/Config: get_valid_input, the validators and configure_cache_sim_parameters, on a list of the
--     answers that scanf reads. Cache/Load: load_traces, on the modelled trace device. Cache/Run:
--     run_cache_sim up to the counts that it prints.
--   Program: userspace/src/main.c, over the modelled assembler, client, trace collector and simulator.
--   Tests: the theorems at concrete inputs.
--
-- Numbers, bounds and fuel. A w-bit integer is a natural number, with `% 2 ^ w` written out where
-- the source wraps; a signed word is its bit pattern, and an `int` that crosses an interface has a
-- type of its own. load_traces has fuel, and one round more than there are unread entries is
-- enough, because a round that goes on takes one. The loop of fast_log2 has fuel 32, one for
-- each evaluation of its test: a uint32_t is 0 after 32 shifts, so the test ends the loop in time, and
-- without fuel the result would be none. The other loops are structural: over the
-- bytes of a word, the entries asked for, the lines of a set, or the trace. The client's loop runs
-- on a list of what the outside world answers, one for each round.
--
-- Outside the model. GPIO readings, copies from and to userspace, signals, the registration calls
-- of the kernel and the allocations of its modules are arguments, and so are malloc, open and
-- realloc of load_traces; the other allocations of userspace are taken to succeed. Printing is left
-- out, with the percentages of the report, and so is freeing memory. An access outside an array,
-- through a bad pointer, or past an int's range is a result of its own. uthash.h is third-party
-- code, and its table a parameter. Each system call of the trace device holds its mutex, so it is
-- one step; the wait of cpu_read is one test of the switches that it finds when it returns. Memory
-- is little-endian, and the kernel's signed arithmetic wraps (it is built with
-- -fno-strict-overflow).
pub mod Base
pub mod Uapi
pub mod Kernel
pub mod Driver
pub mod Trace
pub mod Assembler
pub mod Userspace
pub mod Cache
pub mod Program
pub mod Tests
