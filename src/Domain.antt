-- ===== src/Domain.antt =====
-- The domain outbox (sose/domain): mutations of business entities, kept by the engine until the
-- domain warehouse has recorded them.
mod Warehouse
mod Outbox
mod Latest
mod Held
pub mod System
pub mod Drain
mod Tests
