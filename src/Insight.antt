-- ===== src/Insight.antt =====
-- internal/insight: what is found in the measurements and the alerts.
pub mod Correlation
mod Tests
