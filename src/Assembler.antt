-- ===== src/Assembler.antt =====
-- userspace/src/assembler.c: from the lines of a source file to instructions.
pub mod Text
pub mod Number
pub mod Labels
pub mod Parse
pub mod Passes
pub mod Loaded
pub mod Jumps
