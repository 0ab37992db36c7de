-- ===== src/Config.antt =====
-- packages/config/dfip_config: versioned configuration and its resolvers.
pub mod RateCards
pub mod Identity
pub mod Catalog
pub mod Resolve
