-- ===== src/Sinks/Tests.antt =====
-- Runs of the outbox at concrete inputs, and the theorems at inputs that meet their hypotheses.
use sose.Sinks.System.{
  Step, dies_after_publish, emits, flush-none, flushes, published_once, run, start,
}
use sose.Sinks.Invariant.{Distinct, checkpoint_offset}
use sose.Sinks.Tables.{
  Sinks, contains, delete_sink_delivery, deliveries_of, find_checkpoint, publish, published_events,
  save_checkpoint, save_sink_checkpoint, save_sink_delivery,
}
use sose.Prelude.{
  List, String, [], ap, arith, delete, find, keep, length, none, refl, save, some, sorted, suc,
  take, zero, ℕ, ◌∷◌, ◌≡◌, ◌≤◌,
}
use sose.Sinks.Model.{
  DomainEvent, SimulationJobState, SinkDelivery, Status, check_batch, check_checkpoint,
  check_delivery, delivery_keyed,
}
use sose.Sinks.Outbox.{
  raises_after_write, returns, Part, checkpoint_or_new, deliver, delivery_from, flush,
  last_event_id, number, offset_of, pending, prepare, text,
}

-- An identity that tells batches with different offsets apart: a text of as many letters.
tally : ℕ → String
tally zero = "a"
tally (suc n) = String.◌∷◌ "a" (tally n)

abbrev by_offset : String → List Part → String
by_offset kind (_ ∷ _ ∷ number from ∷ _) = tally from
by_offset kind _ = "delivery"

abbrev letters : String → ℕ
letters String.[] = 0
letters (String.◌∷◌ c s) = suc (letters s)

letters-tally : (n : ℕ) → letters (tally n) ≡ suc n
unfolding tally
letters-tally zero = refl
letters-tally (suc n) = ap suc (letters-tally n)

by_offset-Distinct : (job_id name : String) → Distinct by_offset job_id name
by_offset-Distinct job_id name f t l f' t' l' e =
    omega (arith, ap letters e, letters-tally f, letters-tally f')

abbrev event : String → DomainEvent
event id = record {
  event_id = id;
  name = "n";
  entity_type = "t";
  entity_id = "e";
  occurred_at = 1;
  tick = none;
  payload = "{}";
  causation_id = none;
  correlation_id = none;
  owner_id = some "o";
}

abbrev job : SimulationJobState
job = record {
  job_id = "j";
  domain_name = "d";
  config_revision = 1;
  logical_time = 5;
  next_tick = 2;
}

-- The process dies after the sink has written the second batch, and a retry raises after it.
abbrev troubled : List Step
troubled =
    emits (event "1")
    ∷ flushes job returns
    ∷ emits (event "2")
    ∷ dies_after_publish job
    ∷ flushes job (raises_after_write "offline")
    ∷ emits (event "3")
    ∷ flushes job returns
    ∷ []

troubled_file :
    published_events (run by_offset "j" "sink" start troubled).file ≡ event "1" ∷ event "2" ∷ []
unfolding run flush deliver prepare checkpoint_or_new sorted delivery_from check_batch
    check_delivery last_event_id check_checkpoint find save delete save_sink_delivery
    delete_sink_delivery save_sink_checkpoint find_checkpoint save_checkpoint offset_of publish
    contains published_events deliveries_of keep tally
troubled_file = refl

published_once_example :
    (n : ℕ) × (checkpoint_offset "j" "sink" (run by_offset "j" "sink" start troubled).sinks ≤ n)
    × (n ≤ length (run by_offset "j" "sink" start troubled).sinks.events)
    × (published_events (run by_offset "j" "sink" start troubled).file
        ≡ take n (run by_offset "j" "sink" start troubled).sinks.events)
published_once_example =
    published_once by_offset "j" "sink" (by_offset-Distinct "j" "sink") troubled

abbrev settled : List Step
settled = emits (event "1") ∷ flushes job returns ∷ []

flush-none_example :
    ((flush by_offset job "sink" returns (run by_offset "j" "sink" start settled)).1
      ≡ run by_offset "j" "sink" start settled)
    × (published_events (run by_offset "j" "sink" start settled).file
        ≡ (run by_offset "j" "sink" start settled).sinks.events)
unfolding run flush deliver prepare checkpoint_or_new sorted delivery_from check_batch
    check_delivery last_event_id check_checkpoint find save delete save_sink_delivery
    delete_sink_delivery save_sink_checkpoint find_checkpoint save_checkpoint offset_of publish
    contains published_events deliveries_of keep tally
flush-none_example =
    flush-none by_offset "j" "sink" (by_offset-Distinct "j" "sink") settled job returns refl

-- An identity that tells the ends of batches apart.
abbrev by_end : String → List Part → String
by_end kind (_ ∷ _ ∷ _ ∷ number to ∷ _) = tally to
by_end kind (_ ∷ text id ∷ _) = id
by_end kind _ = ""

-- One worker has read the first event, and the other both.
abbrev one_event : Sinks
one_event = record { sink_deliveries = []; sink_checkpoints = []; events = event "1" ∷ [] }

abbrev of_events : String → List DomainEvent → SinkDelivery
of_events id es = record {
  delivery_id = id;
  sink_name = "sink";
  batch = record {
    batch_id = id;
    job_id = "j";
    domain_name = "d";
    config_revision = 1;
    logical_tick = 2;
    logical_time = 5;
    from_event_offset = 0;
    to_event_offset = length es;
    events = es;
  };
  status = Status.pending;
  attempts = 0;
  last_error = none;
  delivered_at = none;
}

abbrev short : SinkDelivery
short = of_events "aa" (event "1" ∷ [])

abbrev long : SinkDelivery
long = of_events "aaa" (event "1" ∷ event "2" ∷ [])
