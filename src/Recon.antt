-- ===== src/Recon.antt =====
-- internal/recon: network discovery.
pub mod Movement
pub mod Schedule
pub mod Hierarchy
mod Tests
