-- ===== src/Sinks/Overlap.antt =====
-- Two workers that prepare deliveries for one sink at the same time.
use sose.Prelude.{List, String, length, ok, ℕ, ◌<◌, ◌≡◌}
use sose.Sinks.Model.{SimulationJobState, SinkDelivery, delivery_keyed}
use sose.Sinks.Tables.{Sinks, save_sink_delivery}
use sose.Sinks.Outbox.{Part, delivery_from}

module _ (deterministic_id : String → List Part → String) (state : SimulationJobState)
    (name : String) where
  abbrev Stored : Sinks → Sinks → SinkDelivery → ℕ → Sinks → Type 0
  Stored seen s d offset s' =
      (offset < length seen.events)
      × (delivery_from deterministic_id state name offset seen.events ≡ ok d)
      × (s' ≡ save_sink_delivery d s)
