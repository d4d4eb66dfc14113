-- ===== src/Docs.antt =====
-- internal/docs: the history of the documents.
pub mod Diff
pub mod Unified
mod Tests
