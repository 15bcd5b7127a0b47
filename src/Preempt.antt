-- ===== src/Preempt.antt =====
-- Preemptive resources (sose/core/preemption.py): a request may displace a reservation, which takes
-- two callbacks of the backend, one for the new lease and one for the displaced one.
mod Records
mod Tables
mod Manager
mod Commit
mod Grant
mod Release
mod Rebuild
mod Inv
mod Invariant
mod Keeps
mod Grants
mod Callbacks
pub mod System
pub mod Recovery
pub mod Handshake
pub mod Requests
mod Tests
