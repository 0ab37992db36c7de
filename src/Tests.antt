-- ===== src/Tests.antt =====
-- Concrete runs of the operations, and the theorems applied to them.
pub mod Session
pub mod Ingest
pub mod Facts
pub mod Config
pub mod Engine
pub mod Publication
pub mod Limits
pub mod Grants
pub mod Analytics
