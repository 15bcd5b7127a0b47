-- ===== src/Container.antt =====
-- Durable containers (sose/core/containers.py): requests that are durable before the backend is
-- asked, and whose completion changes the level of the container once.
mod Records
mod Float
mod Tables
mod Manager
mod Rebuild
mod Commit
mod Define
pub mod Invariant
pub mod Ledger
pub mod Recovery
pub mod System
pub mod Outcome
mod Tests
