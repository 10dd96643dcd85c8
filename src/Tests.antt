-- ===== src/Tests.antt =====
-- Runs of the modelled programs on concrete inputs.
pub mod Machines
pub mod Processor
pub mod Traces
pub mod Client
pub mod Caches
pub mod Assembly
pub mod Loading
pub mod Simulator
pub mod Programs
pub mod Reports
