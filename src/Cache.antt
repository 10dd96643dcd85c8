-- ===== src/Cache.antt =====
-- userspace/src/cache_simulator.c, the simulator of a hierarchy of caches over the collected trace.
pub mod Geometry
pub mod Level
pub mod Optimal
pub mod Access
pub mod Load
pub mod Config
pub mod Run
