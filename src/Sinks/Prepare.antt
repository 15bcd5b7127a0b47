-- ===== src/Sinks/Prepare.antt =====
-- What `prepare` and `flush` do to the invariant.
use sose.Prelude.{
  Bool-cases, Error, List, Option, Result, String, [], arith, drop, eq_iff, err, find, inl, inr,
  keep, leb, length, none, ok, plan_cases, refl, save, some, sorted, subst, sym, take-append-drop,
  take_all, transaction, ℕ, ◌<◌, ◌∙◌, ◌∷◌, ◌≡◌, ◌≤◌,
}
use sose.Sinks.Model.{
  DomainEvent, SimulationJobState, SinkCheckpoint, SinkDelivery, Status, check_batch,
  check_delivery, delivery_keyed,
}
use sose.Sinks.Tables.{Sinks, deliveries_of, find_checkpoint, save_sink_delivery}
use sose.Sinks.Outbox.{
  Part, World, batch_id_of, checkpoint_or_new, checkpoint_or_new-offset, delivery_from,
  last_event_id, no_check, offset_of, pending, prepare, prepare_body, prepare_new,
}
use sose.Sinks.Invariant.{Busy, Idle, Inv, Prepared, checkpoint_offset, ready_of}

-- The delivery that `prepare` makes.
pub record IsDeliveryFrom (deterministic_id : String → List Part → String)
    (state : SimulationJobState) (name : String) (offset : ℕ) (events : List DomainEvent)
    (d : SinkDelivery) : Type 0 where
  pub sink : d.sink_name ≡ name
  pub job : d.batch.job_id ≡ state.job_id
  pub is_open : d.status ≡ Status.pending
  pub from : d.batch.from_event_offset ≡ offset
  pub to : d.batch.to_event_offset ≡ length events
  pub all : d.batch.events ≡ drop offset events
  pub batch_identity :
      d.batch.batch_id
      ≡ batch_id_of deterministic_id state.job_id name offset
          (length events)
          (last_event_id (drop offset events))

module _ (deterministic_id : String → List Part → String) (state : SimulationJobState)
    (name : String) where
  pub delivery_from-ok :
      (offset : ℕ) (events : List DomainEvent) (d : SinkDelivery)
      → delivery_from deterministic_id state name offset events ≡ ok d
      → IsDeliveryFrom deterministic_id state name offset events d
  unfolding delivery_from check_batch check_delivery
  delivery_from-ok offset events d h = ground arith

  saved-Prepared :
      (d : SinkDelivery) (w : World)
      → Idle deterministic_id state.job_id name w
      → checkpoint_offset state.job_id name w.sinks < length w.sinks.events
      → IsDeliveryFrom deterministic_id state name
          (checkpoint_offset state.job_id name w.sinks)
          w.sinks.events
          d
      → Prepared deterministic_id state.job_id name d
          (record w { sinks = record w.sinks { sink_deliveries = d ∷ [] } })
  unfolding checkpoint_offset
  saved-Prepared d w i more is = record {
    ready = record {
      alone = refl;
      sink = is.sink;
      job = is.job;
      is_open = is.is_open;
      from = is.from;
      nonempty = omega (arith, more, is.from, is.to);
      within = omega (arith, is.to);
      last = last_event_id (drop (checkpoint_offset state.job_id name w.sinks) w.sinks.events);
      batch_identity = rw (is.from, is.to) is.batch_identity;
      slice =
          rw (is.from, is.to, is.all)
            (take-append-drop _ w.sinks.events ∙ sym (take_all _ w.sinks.events (omega arith)));
    };
    holds = rw is.from i.holds;
    fresh = rw is.from i.fresh;
  }

  pub pending-Idle :
      (w : World)
      → Idle deterministic_id state.job_id name w
      → pending w.sinks state.job_id name ≡ []
  unfolding pending deliveries_of sorted keep
  pending-Idle w i = rw i.none_pending

  pub pending-Busy :
      (d : SinkDelivery) (w : World)
      → Busy deterministic_id state.job_id name d w
      → pending w.sinks state.job_id name ≡ d ∷ []
  unfolding pending deliveries_of sorted keep
  pending-Busy d w b =
      let r = ready_of deterministic_id state.job_id name d w b in
      ground (
        arith,
        r.alone,
        r.sink,
        r.job,
        r.is_open,
        eq_iff d.sink_name name,
        eq_iff d.batch.job_id state.job_id,
      )

  prepare_body-Idle :
      (d : SinkDelivery) (w : World)
      → Idle deterministic_id state.job_id name w
      → prepare_body deterministic_id state name
          (offset_of (find_checkpoint state.job_id name w.sinks.sink_checkpoints))
          d
          w.sinks
        ≡ ok (some d, record w.sinks { sink_deliveries = d ∷ [] })
  unfolding find save save_sink_delivery
  prepare_body-Idle d w i = ground (arith, i.none_pending)

  -- `prepare` by one worker raises or finds nothing to deliver, and changes nothing, or returns the
  -- one delivery that is then pending.
  pub prepare_cases {ℓ} :
      (P : Result (Option SinkDelivery) × Sinks → Type ℓ) (w : World)
      → Inv deterministic_id state.job_id name w
      → ((e : Error) → P (err e, w.sinks))
      → (Idle deterministic_id state.job_id name w
          → length w.sinks.events ≤ checkpoint_offset state.job_id name w.sinks
          → P (ok none, w.sinks))
      → ((d : SinkDelivery) (s : Sinks)
          → s.events ≡ w.sinks.events
          → Busy deterministic_id state.job_id name d (record w { sinks = s })
          → P (ok (some d), s))
      → P (prepare deterministic_id state name w.sinks w.sinks)
  unfolding prepare
  prepare_cases P w (inr (d, b)) raised nothing found =
      rw (pending-Busy d w b, prepare) (found d w.sinks refl b)
  prepare_cases P w (inl i) raised nothing found =
      rw (pending-Idle w i, prepare)
        (plan_cases P (checkpoint_or_new state.job_id name stored) (λ e. (err e, w.sinks))
          (λ c. prepare_new deterministic_id state name c.event_offset w.sinks w.sinks) raised
          λ c e.
            subst (λ k. P (prepare_new deterministic_id state name k w.sinks w.sinks))
              (sym (checkpoint_or_new-offset state.job_id name stored c e)) from_offset)
    where
      stored : Option SinkCheckpoint
      stored = find_checkpoint state.job_id name w.sinks.sink_checkpoints

      offset : ℕ
      offset = offset_of stored

      from_offset : P (prepare_new deterministic_id state name offset w.sinks w.sinks)
      from_offset = elim (Bool-cases (leb (length w.sinks.events) offset)) [
        | inl done ↦ rw done (nothing i (unfold checkpoint_offset in ground arith))
        | inr more ↦ rw more (
            plan_cases P (delivery_from deterministic_id state name offset w.sinks.events)
              (λ e. (err e, w.sinks))
              (λ d.
                transaction no_check (prepare_body deterministic_id state name offset d) w.sinks)
              raised
              λ d made. rw (prepare_body-Idle d w i) (
                found d _ refl (
                  inl (
                    saved-Prepared d w i (unfold checkpoint_offset in ground arith) (
                      unfold checkpoint_offset in delivery_from-ok offset w.sinks.events d made)))))
      ]
