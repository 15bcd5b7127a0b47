-- ===== src/Sinks/Tables.antt =====
-- The sink families of persistence/memory.py, and the file of the JSONL sink (sinks/jsonl.py) as
-- the list of the batches on its lines.
use sose.Prelude.{
  Bool, List, Option, String, [], delete, false, if◌then◌else◌, keep, none, save, some, sorted,
  str_eq, str_leb, ◌&&◌, ◌++◌, ◌||◌, ◌∷◌,
}
use sose.Sinks.Model.{AnalyticalBatch, DomainEvent, SinkCheckpoint, SinkDelivery, delivery_keyed}

pub record Sinks : Type 0 where
  pub sink_deliveries : List SinkDelivery
  pub sink_checkpoints : List SinkCheckpoint
  pub events : List DomainEvent

-- `sink_checkpoints.get((job_id, sink_name))`
unfoldable pub find_checkpoint : String → String → List SinkCheckpoint → Option SinkCheckpoint
find_checkpoint job_id sink_name [] = none
find_checkpoint job_id sink_name (c ∷ rows) =
    if str_eq c.job_id job_id && str_eq c.sink_name sink_name
    then some c
    else find_checkpoint job_id sink_name rows

-- `sink_checkpoints[(checkpoint.job_id, checkpoint.sink_name)] = checkpoint`
unfoldable pub save_checkpoint : SinkCheckpoint → List SinkCheckpoint → List SinkCheckpoint
save_checkpoint checkpoint [] = checkpoint ∷ []
save_checkpoint checkpoint (c ∷ rows) =
    if str_eq c.job_id checkpoint.job_id && str_eq c.sink_name checkpoint.sink_name
    then checkpoint ∷ rows
    else c ∷ save_checkpoint checkpoint rows

-- `persistence.sink_deliveries(job_id=..., sink_name=...)`
unfoldable pub deliveries_of : Sinks → String → String → List SinkDelivery
deliveries_of s job_id sink_name =
    keep (λ d. str_eq d.batch.job_id job_id && str_eq d.sink_name sink_name)
      (sorted (λ a b. str_leb a.delivery_id b.delivery_id) s.sink_deliveries)

unfoldable pub save_sink_delivery : SinkDelivery → Sinks → Sinks
save_sink_delivery d s = record s { sink_deliveries = save d s.sink_deliveries }

unfoldable pub delete_sink_delivery : String → Sinks → Sinks
delete_sink_delivery id s = record s { sink_deliveries = delete id s.sink_deliveries }

unfoldable pub save_sink_checkpoint : SinkCheckpoint → Sinks → Sinks
save_sink_checkpoint c s = record s { sink_checkpoints = save_checkpoint c s.sink_checkpoints }

-- `_contains`
unfoldable pub contains : List AnalyticalBatch → String → Bool
contains [] batch_id = false
contains (b ∷ file) batch_id = str_eq b.batch_id batch_id || contains file batch_id

-- `publish` of the JSONL sink: a batch whose identity is on a line already is not written again.
unfoldable pub publish : List AnalyticalBatch → AnalyticalBatch → List AnalyticalBatch
publish file batch = if contains file batch.batch_id then file else file ++ batch ∷ []

-- What the batches of a file hold, in order.
unfoldable pub published_events : List AnalyticalBatch → List DomainEvent
published_events [] = []
published_events (b ∷ file) = b.events ++ published_events file
