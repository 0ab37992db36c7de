-- ===== src/Analytics.antt =====
-- packages/analytics/dfip_analytics: sums, KPIs, periods and drill paths over facts. All of it is pure.
pub mod Divide
pub mod Kpis
pub mod Grains
pub mod Aggregate
pub mod Filters
pub mod Buckets
