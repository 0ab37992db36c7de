-- ===== src/Transform/FactStore/Revert.antt =====
-- `revert_run`: what a reverted store holds under each key, and the writes that it takes back.
pub mod Closed
pub mod RoundTrip
pub mod Twice
