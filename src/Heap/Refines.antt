-- ===== src/Heap/Refines.antt =====
-- The scheduler implements the queue, and its loop ends.
use sose.Prelude.{List, [], ℕ, ◌≡◌, ◌∷◌}
use sose.Schedule.Tables.{Command}
use sose.Heap.Scheduler.{Heapq, Scheduled, Scheduler, due, schedule}
use sose.Heap.Queue.{Before, Lawful, Ordered, Rows, QueueStep, schedules, takes_due}

module _ (q : Heapq) where
  -- What the scheduler gives out over a list of operations.
  unfoldable pub outputs : Scheduler → List QueueStep → List (List Command)
  unfolding due schedule
  outputs s [] = []
  outputs s (schedules command prio ∷ ops) = outputs (schedule q command prio s) ops
  outputs s (takes_due at ∷ ops) = let (ready, s') = due q at s in ready ∷ outputs s' ops

module _ (q : Heapq) (law : Lawful q) where
  -- A heap holds the rows of an ordered queue, whose sequence numbers are at most `n`.
  record Holds (n : ℕ) (heap queue : List Scheduled) : Type 0 where
    pub is_heap : law.IsHeap heap
    pub rows : Rows heap queue
    pub ordered : Ordered queue
    pub before : Before n queue

  -- The scheduler and the queue with its counter.
  abbrev Implements : Scheduler → List Scheduled × ℕ → Type 0
  Implements s (queue, n) = Holds n s.heap queue × (s.sequence ≡ n)
