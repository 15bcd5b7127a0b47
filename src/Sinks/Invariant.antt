-- ===== src/Sinks/Invariant.antt =====
-- One worker flushes one job's events to one sink. The invariant: what the file of the sink holds
-- is a prefix of the events, which ends at the checkpoint or at the end of the one delivery that
-- is pending.
use sose.Prelude.{
  List, String, [], append-nil, append_assoc, arith, eq_iff, false, inl, inr, length, some, str_eq,
  take, true, ℕ, ◌++◌, ◌<◌, ◌||◌, ◌∷◌, ◌≡◌, ◌≤◌, ◌⊎◌,
}
use sose.Sinks.Model.{AnalyticalBatch, SinkCheckpoint, SinkDelivery, Status, delivery_keyed}
use sose.Sinks.Tables.{Sinks, contains, find_checkpoint, published_events, save_checkpoint}
use sose.Sinks.Outbox.{Part, World, batch_id_of, offset_of}

pub contains-append :
    (file : List AnalyticalBatch) (b : AnalyticalBatch) (id : String)
    → contains (file ++ b ∷ []) id ≡ (contains file id || str_eq b.batch_id id)
unfolding contains
contains-append [] b id = ground arith
contains-append (x ∷ file) b id = ground (arith, contains-append file b id)

pub published_events-append :
    (file : List AnalyticalBatch) (b : AnalyticalBatch)
    → published_events (file ++ b ∷ []) ≡ published_events file ++ b.events
unfolding published_events
published_events-append [] b = rw append-nil
published_events-append (x ∷ file) b = rw (published_events-append file b, append_assoc)

pub find-save_checkpoint :
    (c : SinkCheckpoint) (rows : List SinkCheckpoint)
    → find_checkpoint c.job_id c.sink_name (save_checkpoint c rows) ≡ some c
unfolding find_checkpoint save_checkpoint
find-save_checkpoint c [] = ground (arith, eq_iff c.job_id c.job_id, eq_iff c.sink_name c.sink_name)
find-save_checkpoint c (x ∷ rows) =
    ground
      (arith, find-save_checkpoint c rows, eq_iff c.job_id c.job_id, eq_iff c.sink_name c.sink_name)

-- The offset of the checkpoint of a job at a sink.
unfoldable pub checkpoint_offset : String → String → Sinks → ℕ
checkpoint_offset job_id name s = offset_of (find_checkpoint job_id name s.sink_checkpoints)

-- Batches of one job and sink that start at different offsets have different identities.
abbrev pub Distinct : (String → List Part → String) → String → String → Type 0
Distinct id job_id name =
    (f t : ℕ) (l : String) (f' t' : ℕ) (l' : String)
    → batch_id_of id job_id name f t l ≡ batch_id_of id job_id name f' t' l'
    → f ≡ f'

module _ (deterministic_id : String → List Part → String) (job_id name : String) where
  abbrev pub identity : ℕ → ℕ → String → String
  identity = batch_id_of deterministic_id job_id name

  -- No batch that starts at the bound or later is in the file.
  abbrev pub Fresh : ℕ → List AnalyticalBatch → Type 0
  Fresh bound file = (f t : ℕ) (l : String) → bound ≤ f → contains file (identity f t l) ≡ false

  -- A pending delivery of the events from the checkpoint on, to `to_event_offset`.
  pub record Ready (d : SinkDelivery) (s : Sinks) : Type 0 where
    pub alone : s.sink_deliveries ≡ d ∷ []
    pub sink : d.sink_name ≡ name
    pub job : d.batch.job_id ≡ job_id
    pub is_open : d.status ≡ Status.pending
    pub from : d.batch.from_event_offset ≡ checkpoint_offset job_id name s
    pub nonempty : d.batch.from_event_offset < d.batch.to_event_offset
    pub within : d.batch.to_event_offset ≤ length s.events
    pub last : String
    pub batch_identity :
        d.batch.batch_id ≡ identity d.batch.from_event_offset d.batch.to_event_offset last
    pub slice :
        take d.batch.from_event_offset s.events ++ d.batch.events
        ≡ take d.batch.to_event_offset s.events

  pub record Idle (w : World) : Type 0 where
    pub none_pending : w.sinks.sink_deliveries ≡ []
    pub within : checkpoint_offset job_id name w.sinks ≤ length w.sinks.events
    pub holds :
        published_events w.file ≡ take (checkpoint_offset job_id name w.sinks) w.sinks.events
    pub fresh : Fresh (checkpoint_offset job_id name w.sinks) w.file

  pub record Prepared (d : SinkDelivery) (w : World) : Type 0 where
    pub ready : Ready d w.sinks
    pub holds : published_events w.file ≡ take d.batch.from_event_offset w.sinks.events
    pub fresh : Fresh d.batch.from_event_offset w.file

  pub record Published (d : SinkDelivery) (w : World) : Type 0 where
    pub ready : Ready d w.sinks
    pub holds : published_events w.file ≡ take d.batch.to_event_offset w.sinks.events
    pub fresh : Fresh d.batch.to_event_offset w.file
    pub there : contains w.file d.batch.batch_id ≡ true

  abbrev pub Busy : SinkDelivery → World → Type 0
  Busy d w = Prepared d w ⊎ Published d w

  abbrev pub Inv : World → Type 0
  Inv w = Idle w ⊎ ((d : SinkDelivery) × Busy d w)

  abbrev pub ready_of : (d : SinkDelivery) (w : World) → Busy d w → Ready d w.sinks
  ready_of d w (inl p) = p.ready
  ready_of d w (inr p) = p.ready
