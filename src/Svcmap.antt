-- ===== src/Svcmap.antt =====
-- internal/svcmap: the services of a device.
pub mod Services
mod Tests
