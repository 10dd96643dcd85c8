-- ===== src/Trace.antt =====
-- trace_collector_driver/trace_collector_driver.c, the kernel module that keeps the accesses to
-- memory until the cache simulator reads them.
pub mod Buffer
pub mod Device
pub mod Log
pub mod Chunks
pub mod Push
pub mod Seek
pub mod Read
pub mod History
pub mod Init
