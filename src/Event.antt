-- ===== src/Event.antt =====
-- internal/event: the event bus between plugins.
pub mod Bus
pub mod Slices
mod Tests
