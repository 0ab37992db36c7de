-- ===== src/Api.antt =====
-- packages/api/dfip_api: who may act on the platform and when, and what is published.
pub mod PublisherSession
pub mod PublicationStore
pub mod Limits
pub mod Identity
pub mod Membership
pub mod ExcelGrant
