-- ===== src/Vault.antt =====
-- internal/vault: the encrypted credential store.
pub mod Crypto
pub mod KeyManager
pub mod Validation
mod Tests
