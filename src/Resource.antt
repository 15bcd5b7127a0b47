-- ===== src/Resource.antt =====
-- Durable resources (sose/core/resources.py): demands, reservations, and releases that survive a
-- crash between their two transactions.
mod Records
mod Tables
mod Manager
mod Release
mod Requests
mod Exclusive
pub mod System
pub mod Recovery
mod Tests
