-- ===== src/Sinks/Outbox.antt =====
-- sinks/outbox.py: the outbox. `seen` are the tables that `prepare` reads before its transaction.
-- The sink's answer to `publish` is an argument: it returns, or raises an exception with a message,
-- before it has written its line or after (in `flush` or `fsync` of the file).
use sose.Prelude.{
  arith, List, Option, Result, String, [], drop, err, find, if◌then◌else◌, keep, leb, length, ltb,
  none, not, ok, runtime_error, some, str_eq, transaction, value_error, ℕ, ◌+◌, ◌==◌, ◌>>=◌, ◌≡◌,
  ◌∷◌,
}
use sose.Sinks.Model.{
  AnalyticalBatch, DomainEvent, SimulationJobState, SinkCheckpoint, SinkDelivery, Status,
  check_batch, check_checkpoint, check_delivery, delivery_keyed, is_pending,
}
use sose.Sinks.Tables.{
  Sinks, delete_sink_delivery, deliveries_of, find_checkpoint, publish, save_sink_checkpoint,
  save_sink_delivery,
}

-- An argument of `deterministic_id`.
pub data Part : Type 0 where
  text : String → Part
  number : ℕ → Part

pub data Answer : Type 0 where
  returns : Answer
  raises : String → Answer
  raises_after_write : String → Answer

unfoldable pub pending : Sinks → String → String → List SinkDelivery
pending s job_id sink_name = keep is_pending (deliveries_of s job_id sink_name)

-- The offset of a checkpoint, and 0 where there is none.
unfoldable pub offset_of : Option SinkCheckpoint → ℕ
offset_of none = 0
offset_of (some c) = c.event_offset

-- The checkpoint that `prepare` starts from: a new one, where there is none, is checked.
unfoldable pub checkpoint_or_new : String → String → Option SinkCheckpoint → Result SinkCheckpoint
checkpoint_or_new job_id sink_name (some c) = ok c
checkpoint_or_new job_id sink_name none =
    check_checkpoint
      (record { job_id = job_id; sink_name = sink_name; event_offset = 0; last_delivery_id = none })

unfoldable pub last_event_id : List DomainEvent → String
last_event_id [] = ""
last_event_id (e ∷ []) = e.event_id
last_event_id (e ∷ events) = last_event_id events

abbrev pub no_check : Sinks → Result (Unit {0})
no_check s = ok tt

-- It stands at the offset of the stored one, or at 0.
pub checkpoint_or_new-offset :
    (job_id sink_name : String) (o : Option SinkCheckpoint) (c : SinkCheckpoint)
    → checkpoint_or_new job_id sink_name o ≡ ok c
    → c.event_offset ≡ offset_of o
unfolding checkpoint_or_new check_checkpoint offset_of
checkpoint_or_new-offset job_id sink_name (some c') c h = ground (arith, h)
checkpoint_or_new-offset job_id sink_name none c h = ground (arith, h)

module _ (deterministic_id : String → List Part → String) where
  abbrev pub batch_id_of : String → String → ℕ → ℕ → String → String
  batch_id_of job_id sink_name from to last =
      deterministic_id "analytical-batch"
        (text job_id ∷ text sink_name ∷ number from ∷ number to ∷ text last ∷ [])

  -- The delivery of all events from an offset on.
  unfoldable pub delivery_from :
      SimulationJobState → String → ℕ → List DomainEvent → Result SinkDelivery
  delivery_from state sink_name offset events = do
    let selected = drop offset events
    let batch_id =
        batch_id_of state.job_id sink_name offset (length events) (last_event_id selected)
    batch ← check_batch (record {
      batch_id = batch_id;
      job_id = state.job_id;
      domain_name = state.domain_name;
      config_revision = state.config_revision;
      logical_tick = state.next_tick;
      logical_time = state.logical_time;
      from_event_offset = offset;
      to_event_offset = length events;
      events = selected;
    })
    check_delivery (record {
      delivery_id = deterministic_id "sink-delivery" (text sink_name ∷ text batch_id ∷ []);
      sink_name = sink_name;
      batch = batch;
      status = Status.pending;
      attempts = 0;
      last_error = none;
      delivered_at = none;
    })

  -- The transaction of `prepare`.
  abbrev pub prepare_body :
      SimulationJobState → String → ℕ → SinkDelivery → Sinks → Result (Option SinkDelivery × Sinks)
  prepare_body state sink_name offset delivery uow =
      if not (offset_of (find_checkpoint state.job_id sink_name uow.sink_checkpoints) == offset)
      then ok (none, uow)
      else elim (find delivery.delivery_id uow.sink_deliveries) [
        | some existing ↦ ok (some existing, uow)
        | none ↦ ok (some delivery, save_sink_delivery delivery uow)
      ]

  abbrev pub prepare_new :
      SimulationJobState → String → ℕ → Sinks → Sinks → Result (Option SinkDelivery) × Sinks
  prepare_new state sink_name offset seen s =
      if leb (length seen.events) offset
      then (ok none, s)
      else elim (delivery_from state sink_name offset seen.events) [
        | err e ↦ (err e, s)
        | ok delivery ↦ transaction no_check (prepare_body state sink_name offset delivery) s
      ]

  unfoldable pub prepare :
      SimulationJobState → String → Sinks → Sinks → Result (Option SinkDelivery) × Sinks
  unfolding pending checkpoint_or_new
  prepare state sink_name seen s = elim (pending seen state.job_id sink_name) [
    | first ∷ rest ↦ (ok (some first), s)
    | [] ↦
        elim (checkpoint_or_new state.job_id sink_name
          (find_checkpoint state.job_id sink_name seen.sink_checkpoints)) [
            | err e ↦ (err e, s)
            | ok checkpoint ↦ prepare_new state sink_name checkpoint.event_offset seen s
          ]
  ]

unfoldable pub completed_delivery : SinkDelivery → SinkDelivery
completed_delivery d = record d {
  status = Status.delivered;
  attempts = d.attempts + 1;
  last_error = none;
  delivered_at = some d.batch.logical_time;
}

unfoldable pub failed_delivery : SinkDelivery → String → SinkDelivery
failed_delivery d message = record d { attempts = d.attempts + 1; last_error = some message }

unfoldable pub record_failed_delivery : SinkDelivery → String → Sinks → Sinks
record_failed_delivery d message s = elim (find d.delivery_id s.sink_deliveries) [
  | none ↦ s
  | some current ↦
      if is_pending current then save_sink_delivery (failed_delivery d message) s else s
]

unfoldable pub delivery_checkpoint : String → SinkDelivery → Result SinkCheckpoint
delivery_checkpoint name d = check_checkpoint (record {
  job_id = d.batch.job_id;
  sink_name = name;
  event_offset = d.batch.to_event_offset;
  last_delivery_id = some d.delivery_id;
})

abbrev move_checkpoint :
    SinkDelivery → SinkCheckpoint → Option SinkCheckpoint → Sinks → Result (SinkDelivery × Sinks)
move_checkpoint d checkpoint existing uow =
    if ltb (offset_of existing) d.batch.from_event_offset
    then err (
        runtime_error "sink checkpoint is behind delivery start; an earlier delivery is unresolved")
    else ok (
      completed_delivery d,
      delete_sink_delivery d.delivery_id (
          save_sink_checkpoint
            (if ltb d.batch.from_event_offset (offset_of existing)
              then elim existing [ some c ↦ c | none ↦ checkpoint ]
              else checkpoint)
            uow),
    )

-- The transaction of `deliver`, after the sink has published.
abbrev pub deliver_body :
    String → SinkDelivery → SinkCheckpoint → Sinks → Result (SinkDelivery × Sinks)
deliver_body name d checkpoint uow = elim (find d.delivery_id uow.sink_deliveries) [
  | none ↦
      move_checkpoint d checkpoint (find_checkpoint d.batch.job_id name uow.sink_checkpoints) uow
  | some current ↦
      if is_pending current
      then move_checkpoint d checkpoint (find_checkpoint d.batch.job_id name uow.sink_checkpoints)
          uow
      else ok (current, uow)
]

-- The durable tables, and the file of the sink.
pub record World : Type 0 where
  pub sinks : Sinks
  pub file : List AnalyticalBatch

abbrev pub beside : List AnalyticalBatch → Result SinkDelivery × Sinks → Result SinkDelivery × World
beside file (r, s) = (r, record { sinks = s; file = file })

abbrev pub acknowledge : String → SinkDelivery → World → Result SinkDelivery × World
acknowledge name d w = elim (delivery_checkpoint name d) [
  | err e ↦ (err e, w)
  | ok checkpoint ↦ beside w.file (transaction no_check (deliver_body name d checkpoint) w.sinks)
]

unfoldable pub deliver : String → SinkDelivery → Answer → World → Result SinkDelivery × World
unfolding record_failed_delivery failed_delivery delivery_checkpoint completed_delivery
deliver name d answer w =
    if not (str_eq d.sink_name name)
    then (err (value_error "sink binding does not own delivery"), w)
    else if not (is_pending d)
    then (ok d, w)
    else elim answer [
      | raises message ↦ (
        err (runtime_error message),
        record w { sinks = record_failed_delivery d message w.sinks },
      )
      | raises_after_write message ↦ (
        err (runtime_error message),
        record { sinks = record_failed_delivery d message w.sinks; file = publish w.file d.batch },
      )
      | returns ↦ acknowledge name d (record w { file = publish w.file d.batch })
    ]

abbrev pub delivered_as : Result SinkDelivery × World → Result (Option SinkDelivery) × World
delivered_as (ok d, w) = (ok (some d), w)
delivered_as (err e, w) = (err e, w)

abbrev pub deliver_first :
    String → Answer → List SinkDelivery → World → Result (Option SinkDelivery) × World
deliver_first name answer [] w = (ok none, w)
deliver_first name answer (d ∷ rest) w = delivered_as (deliver name d answer w)

module _ (deterministic_id : String → List Part → String) where
  -- What `flush` does with the answer of `prepare` and the tables after it.
  abbrev pub flush_prepared :
      SimulationJobState
      → String
      → Answer
      → List AnalyticalBatch
      → Result (Option SinkDelivery) × Sinks
      → Result (Option SinkDelivery) × World
  flush_prepared state name answer file (err e, s) = (err e, record { sinks = s; file = file })
  flush_prepared state name answer file (ok none, s) =
      deliver_first name answer (pending s state.job_id name) (record { sinks = s; file = file })
  flush_prepared state name answer file (ok (some d), s) =
      delivered_as (deliver name d answer (record { sinks = s; file = file }))

  unfoldable pub flush :
      SimulationJobState → String → Answer → World → Result (Option SinkDelivery) × World
  unfolding prepare deliver
  flush state name answer w =
      flush_prepared state name answer w.file (prepare deterministic_id state name w.sinks w.sinks)
