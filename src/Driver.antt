-- ===== src/Driver.antt =====
-- cpu_driver/cpu_emulator_driver.c, the kernel module that emulates the processor.
pub mod Cpu
pub mod Flags
pub mod Exec
pub mod Cases
pub mod Control
pub mod Dev
pub mod Valid
pub mod Branch
pub mod Outcome
pub mod Init
