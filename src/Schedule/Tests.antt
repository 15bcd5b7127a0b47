-- ===== src/Schedule/Tests.antt =====
-- Runs of the scheduler at concrete inputs, and the theorems at inputs that meet their hypotheses.
use sose.Prelude.{
  All, if◌then◌else◌, total, arith, true, List, String, [], delete, find, has, keep, map, max_of,
  none, ok, refl, save, some, sorted, str_eq, ℕ, ◌∷◌, ◌≡◌,
}
use sose.Schedule.Tables.{
  Command, ScheduledWork, command_keyed, delete_command, delete_scheduled_work, save_command,
  save_scheduled_work, scheduled_work, work_keyed,
}
use sose.Schedule.Scheduler.{
  DurableScheduledItem, cancel, cancel_body, cancel_work, items_of, may_schedule, next_sequence,
  owned_by, pending, schedule, work_for,
}
use sose.Schedule.Rebuild.{rebuild, schedule_at}
use sose.Schedule.Restart.{rebuild_complete}
use sose.Schedule.Order.{InOrder}
use sose.Schedule.Linked.{Linked}
use sose.Schedule.System.{Step, cancels, empty, pending_complete, run, run-Linked, schedules}

abbrev by_command : String → List String → String
by_command kind (_ ∷ id ∷ _) = id
by_command kind _ = ""

abbrev ship : String → ℕ → Command
ship id at = record {
  command_id = id;
  name = "ship";
  entity_type = "order";
  entity_id = "7";
  due_at = at;
  issued_at = none;
  tick = none;
  payload = "{}";
  causation_id = none;
  correlation_id = none;
  owner_id = some "o";
}

abbrev work : String → ℕ → ℕ → ScheduledWork
work id at n = record {
  due_at = at;
  priority = 100;
  sequence = n;
  work_id = id;
  command_id = id;
  owner_id = "o";
}

-- The second command is due first, the third is cancelled, and the fourth is refused: it is late.
abbrev history : List Step
history =
    schedules "o" empty none (ship "a" 20) 100
    ∷ schedules "o" empty none (ship "b" 10) 100
    ∷ schedules "o" empty none (ship "c" 15) 100
    ∷ cancels "o" "c"
    ∷ schedules "o" empty (some 5) (ship "d" 4) 100
    ∷ []

in_order :
    pending "o" (run by_command empty history)
    ≡ ok (
        record { work = work "b" 10 2; command = ship "b" 10 }
        ∷ record { work = work "a" 20 1; command = ship "a" 20 }
        ∷ [])
unfolding pending items_of run schedule may_schedule work_for next_sequence owned_by cancel
    cancel_body cancel_work scheduled_work save_command save_scheduled_work delete_command
    delete_scheduled_work sorted find save delete has max_of keep
in_order = refl

run-Linked_example : Linked (run by_command empty history)
run-Linked_example = run-Linked by_command history

pending_complete_example :
    let c = run by_command empty history in
    (items : List DurableScheduledItem) × (pending "o" c ≡ ok items)
    × All (λ i. find i.work.command_id c.commands ≡ some i.command) items
    × InOrder (map (λ i. i.work) items)
    × ((f : ScheduledWork → ℕ)
        → total f (map (λ i. i.work) items)
          ≡ total (λ w. if str_eq w.owner_id "o" then f w else 0) c.work)
pending_complete_example = pending_complete by_command history "o"

rebuild_complete_example :
    rebuild "o" 5 (some 5) (λ i. true) (ok tt) (run by_command empty history)
    ≡ ok (schedule_at 10 100 "b" ∷ schedule_at 20 100 "a" ∷ [], 2)
unfolding run schedule may_schedule work_for next_sequence owned_by cancel cancel_body cancel_work
    scheduled_work save_command save_scheduled_work delete_command delete_scheduled_work sorted find
    save delete has max_of keep
rebuild_complete_example =
    rebuild_complete by_command history "o" 5 (omega arith, (omega arith, tt))
