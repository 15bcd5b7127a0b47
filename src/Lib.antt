-- ===== src/Lib.antt =====
-- The durable core of the simulation engine: tables that survive a crash, and the managers and
-- outboxes that change them.
--
-- The parts and their files (paths from the repository's root):
-- - Container: `DurableContainerManager` of src/sose/core/containers.py, with the container records
--   of src/sose/core/runtime.py and the container tables of src/sose/persistence/memory.py. Records
--   holds the records and the checks of their `__post_init__`, Float the rounding of a sum, Tables
--   the operations of a unit of work and the sorted reads, Manager `define`, `put`, `get` (both
--   `request`), `result` and `commit`, and Rebuild `validate_rebuild` and `rebuild_backend`. The
--   other files are proofs.
-- - Resource: `DurableResourceManager` of src/sose/core/resources.py, with the resource records of
--   src/sose/core/runtime.py and the resource tables of src/sose/persistence/memory.py. Manager holds
--   `request`, `commit_grant` and `cancel_pending`, Release the release, its recovery and
--   `rebuild_backend`, Requests `ensure_requested` and `withdraw`. System is the histories of
--   transactions; the other files are proofs.
-- - Schedule: `DurableScheduler` of src/sose/core/durable.py, with `Command` of
--   src/sose/core/events.py, `ScheduledWork` of src/sose/core/runtime.py and their tables of
--   src/sose/persistence/memory.py. Tables holds the records and tables, Scheduler the methods,
--   Rebuild the `RuntimeRebuilder`, System the histories; the other files are proofs.
-- - Store: `DurableStoreManager` of src/sose/core/stores.py, with the store records of
--   src/sose/core/runtime.py and the store tables of src/sose/persistence/memory.py. Manager holds
--   `define`, `put`, `get` and `commit_put`, Select `commit_get`, Rebuild `validate_rebuild` and
--   `rebuild_backend`, Ensure `ensure_put` and `ensure_selection`; System is the histories,
--   Ensured those in which callers retry `ensure_put`, and Ledger what they count; the other files
--   are proofs. Registered filters are a predicate on names.
-- - Preempt: `DurablePreemptiveResourceManager` of src/sose/core/preemption.py, with the preemptive
--   records of src/sose/core/runtime.py, their tables of src/sose/persistence/memory.py, and the lease
--   and the notice of src/sose/backends/base.py. Manager is what a process keeps in memory and the
--   methods that the callers call, Commit the transactions of the two ways to a reservation, Grant
--   the callbacks, Release the release, Rebuild validation and recovery, Requests `ensure_requested`
--   and `withdraw`. This manager is modelled for one process, whose
--   reads are those of its own tables; System is its histories, in which the backend's callbacks
--   may come at any moment, also between the two transactions of a release. The other files are
--   proofs.
-- - Heap: `Scheduler` of src/sose/core/scheduler.py and `SimulationClock` of src/sose/core/clock.py.
--   Scheduler and Clock hold the code, Queue the ordered queue that the scheduler implements, Refines
--   and Ends the proofs. `heapq` is a parameter, whose laws are those of its documentation.
-- - Domain: `DomainMutationOutbox` of src/sose/domain/outbox.py, with the delivery of
--   src/sose/domain/delivery.py and its table of src/sose/persistence/memory.py, the reference
--   warehouse of src/sose/domain/warehouse.py, and the view of src/sose/domain/entity_store.py.
--   Warehouse holds entities, mutations and `apply`, Outbox the outbox and the view, System the
--   histories; the other files are proofs.
-- - Sinks: `SinkOutbox` of src/sose/sinks/outbox.py, with src/sose/sinks/model.py, the sink tables
--   of src/sose/persistence/memory.py and the reference sink of src/sose/sinks/jsonl.py. Model holds
--   the records, Tables the tables and the sink's file, Outbox `pending`, `prepare`, `deliver` and
--   `flush`. The other files are proofs.
-- - Encoding: `encode_deterministic_parts` of src/sose/core/encoding.py and `deterministic_id` of
--   src/sose/core/identity.py. Scalars holds the conversions of scalars to bytes, Value the values
--   that a scope may hold and their encoding, Identity the identity; the other files are proofs.
--   `uuid5`, `float.hex` and `isoformat` are parameters.
-- - Prelude: results with errors, transactions, tables as association lists, and integers.
--
-- How the code becomes definitions. The dictionaries of the unit of work are association lists with
-- the dictionary's key, in insertion order; a read that sorts sorts. A method of a manager reads
-- the tables, computes, and then runs a transaction that checks again; the definitions take the
-- tables at the reads (`seen`) and the tables at the transaction as two arguments, so that a list
-- of calls covers every interleaving of workers at that grain. A transaction returns its answer and
-- the new tables, or its error and the tables as they were. What a manager asks of the simulation
-- backend is a value that it returns (`Call`). Exceptions are the constructors of `Error` with the
-- constant part of their message. Every definition is structurally
-- recursive, but for the loop of the heap scheduler's `due`, whose turns are bounded by the number of
-- entries of the heap, which is enough; the distance of neighbouring floats is found in 2098 turns, one
-- for each bit of the largest float; and the decimal digits of `n` in at most `n` turns and one.
--
-- Bounds: a float of a container is the natural number of units of 2 ^ -1074, the smallest positive
-- float, that it holds, so that the checks for finite and non-negative numbers hold by type; a sum or
-- a difference is rounded to 53 bits, to even halfway. A level below zero is `none` in `next_level`.
-- Times are natural numbers, and integers in the clock.
-- Priorities are natural numbers too.
--
-- Not modelled: the advisory lock around a release; deep copies and the tracking of dirty
-- records, which do not change what a table
-- holds; the callbacks of users; the text of the JSON lines, a line standing for its batch; the
-- other components of the engine (the authoritative resource ledger, statecharts, probability,
-- composition, jobs) and the database drivers. The sink's answer to `publish` is an
-- argument: it writes its line, or raises before it has written or after; a process that dies after
-- the write is a step of a history. A line that is written in part is not modelled.

pub mod Preempt
pub mod Heap
pub mod Domain
pub mod Prelude
pub mod Encoding
pub mod Container
pub mod Resource
pub mod Schedule
pub mod Store
pub mod Sinks
