-- ===== src/Heap/Scheduler.antt =====
-- core/scheduler.py. The functions of `heapq` are a parameter.
use sose.Prelude.{
  Bool, true, false, List, Option, [], leb, length, ltb, none, some, discrete_fields, ℕ, zero, suc,
  ◌&&◌, ◌+◌, ◌==◌, ◌||◌, ◌∷◌,
}
use sose.Schedule.Tables.{Command}

-- `_Scheduled`, and its order, which leaves the command out.
pub record Scheduled : Type 0 where
  pub due_at : ℕ
  pub priority : ℕ
  pub sequence : ℕ
  pub command : Command

abbrev pub scheduled_leb : Scheduled → Scheduled → Bool
scheduled_leb a b =
    ltb a.due_at b.due_at
    || (a.due_at == b.due_at
        && (ltb a.priority b.priority || (a.priority == b.priority && leb a.sequence b.sequence)))

unfoldable pub Command-discrete : Discrete Command
Command-discrete = hlevel discrete_fields

unfoldable pub Scheduled-discrete : Discrete Scheduled
Scheduled-discrete = hlevel (discrete_fields, Command-discrete)

-- The two functions of `heapq` that the scheduler calls; a pop of an empty list raises.
pub record Heapq : Type 0 where
  pub heappush : List Scheduled → Scheduled → List Scheduled
  pub heappop : List Scheduled → Option (Scheduled × List Scheduled)

pub record Scheduler : Type 0 where
  pub heap : List Scheduled
  pub sequence : ℕ

abbrev pub new_scheduler : Scheduler
new_scheduler = record { heap = []; sequence = 0 }

-- `__len__`
unfoldable pub size : Scheduler → ℕ
size s = length s.heap

module _ (q : Heapq) where
  unfoldable pub schedule : Command → ℕ → Scheduler → Scheduler
  schedule command prio s = record {
    heap = q.heappush s.heap (record {
      due_at = command.due_at;
      priority = prio;
      sequence = s.sequence + 1;
      command = command;
    });
    sequence = s.sequence + 1;
  }

  -- The `while` loop of `due`, with a bound on its turns.
  unfoldable pub due_within : ℕ → ℕ → List Scheduled → List Command × List Scheduled
  due_within zero at heap = ([], heap)
  due_within (suc n) at [] = ([], [])
  due_within (suc n) at (root ∷ heap) = elim (leb root.due_at at) [
    | false ↦ ([], root ∷ heap)
    | true ↦ elim (q.heappop (root ∷ heap)) [
      | none ↦ ([], root ∷ heap)
      | some (item, rest) ↦ let (ready, left) = due_within n at rest in (item.command ∷ ready, left)
    ]
  ]

  unfoldable pub due : ℕ → Scheduler → List Command × Scheduler
  unfolding due_within
  due at s =
      let (ready, left) = due_within (length s.heap) at s.heap in (ready, record s { heap = left })
