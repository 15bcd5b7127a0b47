-- ===== src/Schedule/Scheduler.antt =====
-- core/durable.py: the scheduler of one owner. `seen` are the tables before the transaction.
use sose.Prelude.{
  Bool, List, Option, Result, String, [], err, find, has, if◌then◌else◌, keep, leb, ltb, max_of,
  none, not, ok, or_raise, permission_error, raise_if, runtime_error, some, str_eq, transaction,
  false, true, value_error, ℕ, ◌+◌, ◌&&◌, ◌>>=◌, ◌>>◌, ◌∷◌,
}
use sose.Schedule.Tables.{
  Command, ScheduledWork, Schedules, command_keyed, delete_command, delete_scheduled_work, no_check,
  save_command, save_scheduled_work, scheduled_work, work_keyed,
}

pub record DurableScheduledItem : Type 0 where
  pub work : ScheduledWork
  pub command : Command

-- `command.owner_id == owner_id`
unfoldable pub owned_by : String → Option String → Bool
owned_by owner none = false
owned_by owner (some id) = str_eq id owner

unfoldable pub next_sequence : String → Schedules → ℕ
next_sequence owner uow =
    max_of (λ w. w.sequence) (keep (λ w. str_eq w.owner_id owner) (scheduled_work uow)) + 1

module _ (deterministic_id : String → List String → String) where
  unfoldable pub work_for : String → Command → ℕ → Schedules → ScheduledWork
  work_for owner command priority uow = record {
    due_at = command.due_at;
    priority = priority;
    sequence = next_sequence owner uow;
    work_id = deterministic_id "scheduled-work" (owner ∷ command.command_id ∷ []);
    command_id = command.command_id;
    owner_id = owner;
  }

  -- The transaction of `schedule`.
  abbrev pub schedule_body : String → Command → ℕ → Schedules → Result (ScheduledWork × Schedules)
  schedule_body owner command priority uow = do
    raise_if (has command.command_id uow.commands) (value_error "command already scheduled")
    let work = work_for owner command priority uow
    uow ← save_scheduled_work work (save_command command uow)
    ok (work, uow)

  -- The checks before it. `now` is the time of the backend, where one is attached.
  unfoldable pub may_schedule : String → Schedules → Option ℕ → Command → Result (Unit {0})
  may_schedule owner seen now command = do
    raise_if (not (owned_by owner command.owner_id))
        (permission_error "command belongs to a different or missing owner")
    raise_if (has command.command_id seen.commands) (value_error "command already scheduled")
    elim now [
      | none ↦ ok tt
      | some t ↦
          raise_if (ltb command.due_at t)
            (value_error "scheduled work cannot be created before backend logical time")
    ]

  unfoldable pub schedule :
      String → Schedules → Option ℕ → Command → ℕ → Schedules → Result ScheduledWork × Schedules
  unfolding may_schedule work_for
  schedule owner seen now command priority c = elim (may_schedule owner seen now command) [
    | err e ↦ (err e, c)
    | ok _ ↦ transaction no_check (schedule_body owner command priority) c
  ]

-- The transaction of `cancel`.
unfoldable pub cancel_work : String → ScheduledWork → Schedules → Result (Bool × Schedules)
cancel_work owner work uow = do
  raise_if (not (str_eq work.owner_id owner))
      (permission_error "scheduled work belongs to a different owner")
  command ←
      or_raise (find work.command_id uow.commands)
        (runtime_error "scheduled work references missing command")
  raise_if (not (owned_by owner command.owner_id))
      (permission_error "scheduled command belongs to a different owner")
  ok (true, delete_command command.command_id (delete_scheduled_work work.work_id uow))

unfoldable pub cancel_body : String → String → Schedules → Result (Bool × Schedules)
unfolding cancel_work
cancel_body owner work_id uow = elim (find work_id uow.work) [
  | none ↦ ok (false, uow)
  | some work ↦ cancel_work owner work uow
]

unfoldable pub cancel : String → String → Schedules → Result Bool × Schedules
unfolding cancel_body
cancel owner work_id c = transaction no_check (cancel_body owner work_id) c

-- The loop of `pending`.
unfoldable pub items_of :
    String → List Command → List ScheduledWork → Result (List DurableScheduledItem)
items_of owner commands [] = ok []
items_of owner commands (work ∷ rows) =
    let rest = items_of owner commands rows in
    if not (str_eq work.owner_id owner) then rest else (do
      command ←
          or_raise (find work.command_id commands)
            (runtime_error "scheduled work references missing command")
      items ← rest
      ok (record { work = work; command = command } ∷ items))

unfoldable pub pending : String → Schedules → Result (List DurableScheduledItem)
unfolding items_of
pending owner c = items_of owner c.commands (scheduled_work c)

unfoldable pub due : String → ℕ → Schedules → Result (List DurableScheduledItem)
unfolding pending
due owner at c = do items ← pending owner c; ok (keep (λ i. leb i.work.due_at at) items)

abbrev targets : String → String → String → DurableScheduledItem → Bool
targets entity_type entity_id name item =
    str_eq item.command.entity_type entity_type
    && str_eq item.command.entity_id entity_id
    && str_eq item.command.name name

abbrev only : List DurableScheduledItem → Result (Option DurableScheduledItem)
only [] = ok none
only (item ∷ []) = ok (some item)
only (a ∷ b ∷ items) = err (runtime_error "multiple pending scheduled commands match")

unfoldable pub find_pending :
    String → String → String → String → Schedules → Result (Option DurableScheduledItem)
unfolding pending
find_pending owner entity_type entity_id name c = do
  items ← pending owner c
  only (keep (targets entity_type entity_id name) items)

abbrev pub cancel_found : String → Option DurableScheduledItem → Schedules → Result Bool × Schedules
cancel_found owner none c = (ok false, c)
cancel_found owner (some item) c = cancel owner item.work.work_id c

unfoldable pub cancel_pending :
    String → String → String → String → Schedules → Schedules → Result Bool × Schedules
unfolding find_pending cancel
cancel_pending owner entity_type entity_id name seen c =
    elim (find_pending owner entity_type entity_id name seen) [
      | err e ↦ (err e, c)
      | ok found ↦ cancel_found owner found c
    ]
