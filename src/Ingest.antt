-- ===== src/Ingest.antt =====
-- packages/core/dfip_core/ingest: a workbook becomes a batch of staged rows, processed by runs.
pub mod Records
pub mod Progress
pub mod Store
