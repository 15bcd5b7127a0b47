-- ===== src/Heap/Tests.antt =====
-- The scheduler on a heap that is a sorted list, and the theorems on it.
use sose.Prelude.{
  total-insert_sorted, All, All-insert_sorted, All-mono, Bool-cases, List, Option, [], arith, inl,
  inr, insert_sorted, length, none, negsuc, pos, refl, some, true, ℤ, ◌*ℤ◌, ◌+ℤ◌, ◌≡◌, ◌∷◌,
}
use sose.Schedule.Tables.{Command}
use sose.Heap.Scheduler.{Heapq, Scheduled, due, due_within, new_scheduler, schedule, scheduled_leb}
use sose.Heap.Queue.{Lawful, QueueStep, entry, schedules, takes_due}
use sose.Heap.Refines.{outputs}
use sose.Heap.Ends.{Stopped, due_terminates}
use sose.Heap.Clock.{SimulationClock, advance, advances, below_one, clock_time, total_steps}

abbrev pop_first : List Scheduled → Option (Scheduled × List Scheduled)
pop_first [] = none
pop_first (e ∷ heap) = some (e, heap)

abbrev sorted_list : Heapq
sorted_list = record {
  heappush = λ heap e. insert_sorted scheduled_leb e heap;
  heappop = pop_first;
}

abbrev InOrder : List Scheduled → Type 0
InOrder [] = Unit
InOrder (e ∷ heap) = All (λ z. scheduled_leb e z ≡ true) heap × InOrder heap

insert_sorted-InOrder :
    (heap : List Scheduled) (e : Scheduled)
    → InOrder heap
    → InOrder (insert_sorted scheduled_leb e heap)
unfolding insert_sorted
insert_sorted-InOrder [] e o = (tt, tt)
insert_sorted-InOrder (x ∷ heap) e o = elim (Bool-cases (scheduled_leb e x)) [
  | inl first ↦ rw first ((first, All-mono _ _ (λ z later. ground arith) heap o.0), o)
  | inr after ↦ rw after (
    All-insert_sorted (λ z. scheduled_leb x z ≡ true) scheduled_leb e heap (ground arith) o.0,
    insert_sorted-InOrder heap e o.1,
  )
]

abbrev sorted_list-Lawful : Lawful sorted_list
sorted_list-Lawful = record {
  IsHeap = InOrder;
  empty_heap = tt;
  least = λ root heap o. o.0;
  push_heap = insert_sorted-InOrder;
  push_adds = λ heap e f. omega (arith, total-insert_sorted scheduled_leb f e heap);
  pop_takes = λ root heap o. (heap, refl, o.1, λ f. refl);
}

abbrev wake : Command
wake = record {
  command_id = "c1";
  name = "wake";
  entity_type = "truck";
  entity_id = "t1";
  due_at = 5;
  issued_at = none;
  tick = none;
  payload = "{}";
  causation_id = none;
  correlation_id = none;
  owner_id = none;
}

abbrev load : Command
load = record wake { command_id = "c2"; name = "load"; due_at = 3 }

abbrev operations : List QueueStep
operations = schedules wake 100 ∷ schedules load 100 ∷ takes_due 4 ∷ takes_due 5 ∷ []

gives_out : outputs sorted_list new_scheduler operations ≡ (load ∷ []) ∷ (wake ∷ []) ∷ []
unfolding outputs schedule due due_within insert_sorted
gives_out = refl

abbrev waiting : List Scheduled
waiting = entry load 100 2 ∷ entry wake 100 1 ∷ []

due_terminates_example :
    (due_within sorted_list (length waiting) 4 waiting ≡ due_within sorted_list 7 4 waiting)
    × Stopped 4 (due_within sorted_list (length waiting) 4 waiting).1
due_terminates_example =
    due_terminates sorted_list sorted_list-Lawful 7 4 waiting ((refl, tt), (tt, tt)) (omega arith)

abbrev midnight : SimulationClock
midnight = record { now = pos 100; step = pos 60; tick = pos 0 }

abbrev calls : List ℤ
calls = pos 2 ∷ negsuc 6 ∷ pos 0 ∷ pos 3 ∷ []

clock_time_example :
    ((advances calls midnight).tick ≡ midnight.tick +ℤ pos (total_steps calls))
    × ((advances calls midnight).now ≡ midnight.now +ℤ midnight.step *ℤ pos (total_steps calls))
clock_time_example = clock_time calls midnight

-- A negative number is refused: 100 and 60 for each of five steps.
five_steps : advances calls midnight ≡ record { now = pos 400; step = pos 60; tick = pos 5 }
unfolding advances advance below_one ◌+ℤ◌ ◌*ℤ◌
five_steps = refl
