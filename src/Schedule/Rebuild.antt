-- ===== src/Schedule/Rebuild.antt =====
-- core/durable.py: the rebuilder, which puts the pending work of one owner into a fresh backend as
-- the list of calls that the backend gets. The other participants of a recovery are a parameter:
-- whether their validation raises. The restored clock and scenarios are not tables of this component.
use sose.Prelude.{
  Bool, List, Option, Result, String, [], find, for_each, if◌then◌else◌, keep, length, ltb, map,
  none, not, ok, or_raise, permission_error, raise_if, runtime_error, some, str_eq, ℕ, ◌==◌, ◌>>=◌,
  ◌>>◌, ◌∷◌,
}
use sose.Schedule.Tables.{Command, ScheduledWork, Schedules, command_keyed, scheduled_work}
use sose.Schedule.Scheduler.{DurableScheduledItem, owned_by}

pub data Call : Type 0 where
  schedule_at : ℕ → ℕ → String → Call

-- The loop of `_recovery_snapshot`.
unfoldable pub recovery_items :
    String → List Command → List ScheduledWork → Result (List DurableScheduledItem)
recovery_items owner commands [] = ok []
recovery_items owner commands (work ∷ rows) =
    let rest = recovery_items owner commands rows in
    if not (str_eq work.owner_id owner) then rest else (do
      command ←
          or_raise (find work.command_id commands)
            (runtime_error "scheduled work references missing command")
      raise_if (not (owned_by owner command.owner_id))
          (permission_error "scheduled command belongs to a different owner")
      items ← rest
      ok (record { work = work; command = command } ∷ items))

unfoldable pub validate_scheduled_items : List DurableScheduledItem → ℕ → Result (Unit {0})
validate_scheduled_items items boundary =
    for_each
      (λ i.
        raise_if (ltb i.work.due_at boundary)
          (runtime_error "scheduled work is before recovery boundary"))
      items

-- The calls of `_schedule_pending_items`, each with its priority and the key of its work.
unfoldable pub schedule_pending_items : List DurableScheduledItem → List Call
schedule_pending_items items =
    map (λ i. schedule_at i.work.due_at i.work.priority i.work.work_id) items

abbrev differs_from : ℕ → Option ℕ → Bool
differs_from now none = Bool.false
differs_from now (some position) = not (now == position)

abbrev boundary_of : ℕ → Option ℕ → ℕ
boundary_of now none = now
boundary_of now (some position) = position

-- `rebuild`: `now` is the backend's time, `position` the persisted logical time, and `authorized`
-- the filter of the domain's work.
unfoldable pub rebuild :
    String
    → ℕ
    → Option ℕ
    → (DurableScheduledItem → Bool)
    → Result (Unit {0})
    → Schedules
    → Result (List Call × ℕ)
unfolding recovery_items validate_scheduled_items schedule_pending_items
rebuild owner now position authorized participants c = do
  found ← recovery_items owner c.commands (scheduled_work c)
  raise_if (differs_from now position)
      (runtime_error "backend logical time does not match persisted recovery boundary")
  let items = keep authorized found
  validate_scheduled_items items (boundary_of now position)
  participants
  ok (schedule_pending_items items, length items)
