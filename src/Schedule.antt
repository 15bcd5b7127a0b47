-- ===== src/Schedule.antt =====
-- The durable scheduler (sose/core/durable.py): future commands that survive a restart, each with
-- the work that is to execute it.
pub mod Tables
mod Scheduler
mod Rebuild
mod Linked
mod Order
pub mod System
pub mod Restart
mod Tests
