-- ===== src/Schedule/Tables.antt =====
-- The command and the work of sose/core/events.py and sose/core/runtime.py, and their tables
-- (persistence/memory.py). Times and priorities are natural numbers, and a payload is its JSON text.
use sose.Prelude.{
  Bool, Keyed, List, Option, Result, String, delete, has, key_error, ltb, not, ok, pair_leb,
  raise_if, save, sorted, ℕ, ◌&&◌, ◌||◌, ◌>>◌,
}

pub record Command : Type 0 where
  pub command_id : String
  pub name : String
  pub entity_type : String
  pub entity_id : String
  pub due_at : ℕ
  pub issued_at : Option ℕ
  pub tick : Option ℕ
  pub payload : String
  pub causation_id : Option String
  pub correlation_id : Option String
  pub owner_id : Option String

pub record ScheduledWork : Type 0 where
  pub due_at : ℕ
  pub priority : ℕ
  pub sequence : ℕ
  pub work_id : String
  pub command_id : String
  pub owner_id : String

instance abbrev pub command_keyed : Keyed Command
command_keyed = record { key = λ c. c.command_id }

instance abbrev pub work_keyed : Keyed ScheduledWork
work_keyed = record { key = λ w. w.work_id }

pub record Schedules : Type 0 where
  pub commands : List Command
  pub work : List ScheduledWork

-- The order of `ScheduledWork`, whose fourth field already tells two rows apart.
abbrev pub work_leb : ScheduledWork → ScheduledWork → Bool
work_leb a b =
    ltb a.due_at b.due_at
    || (not (ltb b.due_at a.due_at)
        && (ltb a.priority b.priority
            || (not (ltb b.priority a.priority)
                && pair_leb a.sequence a.work_id b.sequence b.work_id)))

unfoldable pub scheduled_work : Schedules → List ScheduledWork
scheduled_work c = sorted work_leb c.work

unfoldable pub save_command : Command → Schedules → Schedules
save_command command c = record c { commands = save command c.commands }

unfoldable pub delete_command : String → Schedules → Schedules
delete_command command_id c = record c { commands = delete command_id c.commands }

unfoldable pub save_scheduled_work : ScheduledWork → Schedules → Result Schedules
save_scheduled_work work c = do
  raise_if (not (has work.command_id c.commands)) (key_error "unknown scheduled command")
  ok (record c { work = save work c.work })

unfoldable pub delete_scheduled_work : String → Schedules → Schedules
delete_scheduled_work work_id c = record c { work = delete work_id c.work }

-- `commit` has no check of its own on schedules.
abbrev pub no_check : Schedules → Result (Unit {0})
no_check c = ok tt
