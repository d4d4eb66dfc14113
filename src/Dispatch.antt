-- ===== src/Dispatch.antt =====
-- internal/dispatch: the agents and their check-ins.
pub mod Store
pub mod Server
pub mod Versions
pub mod Enrollment
pub mod CheckIn
pub mod Tokens
pub mod Uses
mod Tests
