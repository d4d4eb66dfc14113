-- ===== src/Auth.antt =====
-- internal/auth: users, log-in, tokens and the middleware in front of the API.
pub mod Monad
pub mod Store
pub mod Service
mod Tests
