-- ===== src/Pulse.antt =====
-- internal/pulse: the monitoring checks and their alerts.
pub mod Store
pub mod Alerter
pub mod Maintenance
mod Tests
