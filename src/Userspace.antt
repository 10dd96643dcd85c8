-- ===== src/Userspace.antt =====
-- userspace/src: the assembler's output in memory, the client of the two devices, and the cache
-- simulator.
pub mod Memory
pub mod Image
pub mod Client
pub mod Isa
