-- ===== src/Registry.antt =====
-- internal/registry/registry.go
pub mod Types
pub mod Sort
pub mod Validate
pub mod Register
pub mod Lifecycle
mod Tests
