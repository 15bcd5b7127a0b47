-- ===== src/Heap.antt =====
-- The in-memory scheduler of sose/core/scheduler.py, on the standard library's heap, and the clock
-- of sose/core/clock.py.
mod Scheduler
pub mod Clock
mod Queue
pub mod Refines
pub mod Ends
mod Tests
