-- ===== src/Sinks/Model.antt =====
-- sinks/model.py, and what the outbox reads of a job's state and of an event. Times are numbers,
-- and a payload is its JSON text.
use sose.Prelude.{
  Bool, Keyed, List, Option, Result, String, false, length, ltb, not, ok, raise_if, str_eq, true,
  value_error, ℕ, ◌-◌, ◌==◌, ◌>>◌, ◌||◌,
}

pub record DomainEvent : Type 0 where
  pub event_id : String
  pub name : String
  pub entity_type : String
  pub entity_id : String
  pub occurred_at : ℕ
  pub tick : Option ℕ
  pub payload : String
  pub causation_id : Option String
  pub correlation_id : Option String
  pub owner_id : Option String

pub record SimulationJobState : Type 0 where
  pub job_id : String
  pub domain_name : String
  pub config_revision : ℕ
  pub logical_time : ℕ
  pub next_tick : ℕ

pub record AnalyticalBatch : Type 0 where
  pub batch_id : String
  pub job_id : String
  pub domain_name : String
  pub config_revision : ℕ
  pub logical_tick : ℕ
  pub logical_time : ℕ
  pub from_event_offset : ℕ
  pub to_event_offset : ℕ
  pub events : List DomainEvent

pub record SinkCheckpoint : Type 0 where
  pub job_id : String
  pub sink_name : String
  pub event_offset : ℕ
  pub last_delivery_id : Option String

pub data Status : Type 0 where
  pending delivered : Status

pub record SinkDelivery : Type 0 where
  pub delivery_id : String
  pub sink_name : String
  pub batch : AnalyticalBatch
  pub status : Status
  pub attempts : ℕ
  pub last_error : Option String
  pub delivered_at : Option ℕ

instance abbrev pub delivery_keyed : Keyed SinkDelivery
delivery_keyed = record { key = λ d. d.delivery_id }

abbrev pub is_pending : SinkDelivery → Bool
is_pending d = elim d.status [ Status.pending ↦ true | Status.delivered ↦ false ]

-- The checks of `AnalyticalBatch.__post_init__`.
unfoldable pub check_batch : AnalyticalBatch → Result AnalyticalBatch
check_batch b = do
  raise_if (str_eq b.batch_id "" || str_eq b.job_id "" || str_eq b.domain_name "")
      (value_error "analytical batch identity cannot be empty")
  raise_if (ltb b.to_event_offset b.from_event_offset)
      (value_error "invalid analytical batch event range")
  raise_if (not (length b.events == b.to_event_offset - b.from_event_offset))
      (value_error "analytical batch range does not match event count")
  ok b

-- The checks of `SinkDelivery.__post_init__`.
unfoldable pub check_delivery : SinkDelivery → Result SinkDelivery
check_delivery d = do
  raise_if (str_eq d.delivery_id "" || str_eq d.sink_name "")
      (value_error "sink delivery identity cannot be empty")
  ok d

-- The checks of `SinkCheckpoint.__post_init__`.
unfoldable pub check_checkpoint : SinkCheckpoint → Result SinkCheckpoint
check_checkpoint c = do
  raise_if (str_eq c.job_id "" || str_eq c.sink_name "")
      (value_error "sink checkpoint identity cannot be empty")
  ok c
