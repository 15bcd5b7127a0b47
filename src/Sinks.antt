-- ===== src/Sinks.antt =====
-- The analytical sinks: the durable outbox, and the reference sink that it delivers to.
mod Model
mod Tables
mod Outbox
pub mod Invariant
mod Deliver
mod Prepare
pub mod System
pub mod Overlap
mod Tests
