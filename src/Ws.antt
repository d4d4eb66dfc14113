-- ===== src/Ws.antt =====
-- internal/ws: messages to the browsers.
pub mod Hub
mod Tests
