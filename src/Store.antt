-- ===== src/Store.antt =====
-- Durable stores (sose/core/stores.py): items that are put, chosen by the backend and given to a
-- request, each durable before the backend is asked.
mod Records
mod Tables
mod Manager
mod Select
mod Moves
mod Rebuild
mod Ensure
mod Invariant
mod Paths
pub mod Ledger
pub mod System
pub mod Restore
mod Retry
pub mod Ensured
mod Tests
