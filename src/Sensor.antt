-- ===== src/Sensor.antt =====
-- The measuring part of scaphandre/src/sensors/mod.rs: the records, the RAPL domains, the CPU
-- cores and sockets with their buffers, and the power that is computed from them.
pub mod Measure
pub mod Stat
pub mod Event
pub mod Domain
pub mod Core
pub mod Socket
pub mod Mmio
mod Examples
