-- ===== src/Gateway.antt =====
-- internal/gateway: remote access through the server.
pub mod Sessions
mod Tests
