-- ===== src/Transform.antt =====
-- packages/core/dfip_core/transform: staged rows become `fact_campaign_day` records.
pub mod Cost
pub mod Derive
pub mod Extract
pub mod Fact
pub mod FactStore
pub mod Labels
pub mod Engine
pub mod Reconcile
