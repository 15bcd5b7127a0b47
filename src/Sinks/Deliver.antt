-- ===== src/Sinks/Deliver.antt =====
-- Delivering the pending delivery keeps the invariant, whatever the sink answers.
use sose.Prelude.{
  Bool-cases, List, Result, String, [], ap, arith, delete, eq_iff, eq_refl, err, false, find, inl,
  inr, ok, plan_cases, refl, save, some, str_eq, subst, sym, transaction, true, ℕ, ◌++◌, ◌∙◌, ◌∷◌,
  ◌≡◌, ◌≤◌,
}
use sose.Sinks.Model.{SinkCheckpoint, SinkDelivery, check_checkpoint, delivery_keyed, is_pending}
use sose.Sinks.Tables.{
  Sinks, contains, delete_sink_delivery, find_checkpoint, publish, save_checkpoint,
  save_sink_checkpoint, save_sink_delivery,
}
use sose.Sinks.Outbox.{
  Answer, raises, raises_after_write, returns, Part, World, acknowledge, batch_id_of, beside,
  completed_delivery, deliver, deliver_body, delivery_checkpoint, failed_delivery, no_check,
  offset_of, record_failed_delivery,
}
use sose.Sinks.Invariant.{
  Busy, Distinct, Idle, Inv, Published, Ready, checkpoint_offset, contains-append,
  find-save_checkpoint, published_events-append, ready_of,
}

module _ (deterministic_id : String → List Part → String) (job_id name : String)
    (distinct : Distinct deterministic_id job_id name) where
  other_identity :
      (d : SinkDelivery) (s : Sinks)
      → Ready deterministic_id job_id name d s
      → (f t : ℕ) (l : String) → d.batch.to_event_offset ≤ f
      → str_eq d.batch.batch_id (batch_id_of deterministic_id job_id name f t l) ≡ false
  other_identity d s r f t l h =
      elim (Bool-cases (str_eq d.batch.batch_id (batch_id_of deterministic_id job_id name f t l))) [
        | inl hit ↦
            let e = distinct d.batch.from_event_offset d.batch.to_event_offset r.last f t l (
              sym r.batch_identity
              ∙ (eq_iff d.batch.batch_id (batch_id_of deterministic_id job_id name f t l)).0 hit) in
            absurd (omega (arith, e, r.nonempty))
        | inr miss ↦ miss
      ]

  -- Publishing puts the delivery's events into the file once, also on a retry.
  pub publish-Busy :
      (d : SinkDelivery) (w : World)
      → Busy deterministic_id job_id name d w
      → Published deterministic_id job_id name d (record w { file = publish w.file d.batch })
  unfolding publish
  publish-Busy d w (inr p) = record {
    ready = p.ready;
    holds = rw p.there p.holds;
    fresh = rw p.there p.fresh;
    there = rw p.there p.there;
  }
  publish-Busy d w (inl p) =
      let new : contains w.file d.batch.batch_id ≡ false =
        rw p.ready.batch_identity
          (p.fresh d.batch.from_event_offset d.batch.to_event_offset p.ready.last (omega arith)) in
      record {
        ready = p.ready;
        holds = rw new (
            published_events-append w.file d.batch
            ∙ ap (λ es. es ++ d.batch.events) p.holds
            ∙ p.ready.slice);
        fresh = rw new (λ f t l h.
            rw
              (
                contains-append w.file d.batch (batch_id_of deterministic_id job_id name f t l),
                p.fresh f t l (omega (arith, p.ready.nonempty)),
              )
              (other_identity d w.sinks p.ready f t l h));
        there =
            rw new (
              rw (contains-append w.file d.batch d.batch.batch_id, new) (eq_refl d.batch.batch_id));
      }

  abbrev moved : SinkDelivery → SinkCheckpoint
  moved d = record {
    job_id = d.batch.job_id;
    sink_name = name;
    event_offset = d.batch.to_event_offset;
    last_delivery_id = some d.delivery_id;
  }

  abbrev settled : SinkDelivery → Sinks → Sinks
  settled d s = record s {
    sink_deliveries = [];
    sink_checkpoints = save_checkpoint (moved d) s.sink_checkpoints;
  }

  deliver_body-Ready :
      (d : SinkDelivery) (s : Sinks)
      → Ready deterministic_id job_id name d s
      → deliver_body name d (moved d) s ≡ ok (completed_delivery d, settled d s)
  unfolding find delete delete_sink_delivery save_sink_checkpoint checkpoint_offset
  deliver_body-Ready d s r = ground (arith, eq_iff d.delivery_id d.delivery_id)

  settled-Idle :
      (d : SinkDelivery) (w : World)
      → Published deterministic_id job_id name d w
      → Idle deterministic_id job_id name (record w { sinks = settled d w.sinks })
  unfolding checkpoint_offset offset_of
  settled-Idle d w p =
      let at : find_checkpoint job_id name (save_checkpoint (moved d) w.sinks.sink_checkpoints)
          ≡ some (moved d) =
        subst
          (λ j.
            find_checkpoint j name (save_checkpoint (moved d) w.sinks.sink_checkpoints)
            ≡ some (moved d))
          p.ready.job (find-save_checkpoint (moved d) w.sinks.sink_checkpoints) in
      record {
        none_pending = refl;
        within = rw at p.ready.within;
        holds = rw at p.holds;
        fresh = rw at p.fresh;
      }

  -- The acknowledgement moves the checkpoint to the end of the delivery and forgets it.
  acknowledge-Inv :
      (d : SinkDelivery) (w : World)
      → Published deterministic_id job_id name d w
      → Inv deterministic_id job_id name (acknowledge name d w).1
  unfolding delivery_checkpoint check_checkpoint
  acknowledge-Inv d w p =
      plan_cases (λ (o : Result SinkDelivery × World). Inv deterministic_id job_id name o.1)
        (delivery_checkpoint name d) (λ e. (err e, w))
        (λ checkpoint.
          beside w.file (transaction no_check (deliver_body name d checkpoint) w.sinks))
        (λ e. inr (d, inr p))
        (λ checkpoint e.
          let same : checkpoint ≡ moved d = ground arith in
          rw same (rw (deliver_body-Ready d w.sinks p.ready) (inl (settled-Idle d w p))))

  failed_tables :
      (d : SinkDelivery) (message : String) (s : Sinks)
      → Ready deterministic_id job_id name d s
      → record_failed_delivery d message s
        ≡ record s { sink_deliveries = failed_delivery d message ∷ [] }
  unfolding failed_delivery record_failed_delivery save_sink_delivery find save
  failed_tables d message s r = ground (arith, eq_iff d.delivery_id d.delivery_id)

  failed-Ready :
      (d : SinkDelivery) (message : String) (s : Sinks)
      → Ready deterministic_id job_id name d s
      → Ready deterministic_id job_id name
          (failed_delivery d message)
          (record s { sink_deliveries = failed_delivery d message ∷ [] })
  unfolding failed_delivery checkpoint_offset
  failed-Ready d message s r = record {
    alone = refl;
    sink = r.sink;
    job = r.job;
    is_open = r.is_open;
    from = r.from;
    nonempty = r.nonempty;
    within = r.within;
    last = r.last;
    batch_identity = r.batch_identity;
    slice = r.slice;
  }

  -- A failure is counted on the pending delivery.
  failed-Busy :
      (d : SinkDelivery) (message : String) (w : World)
      → Busy deterministic_id job_id name d w
      → Busy deterministic_id job_id name
          (failed_delivery d message)
          (record w { sinks = record_failed_delivery d message w.sinks })
  failed-Busy d message w (inl p) = rw (failed_tables d message w.sinks p.ready) (
      inl (record {
        ready = failed-Ready d message w.sinks p.ready;
        holds = unfold failed_delivery in p.holds;
        fresh = unfold failed_delivery in p.fresh;
      }))
  failed-Busy d message w (inr p) = rw (failed_tables d message w.sinks p.ready) (
      inr (record {
        ready = failed-Ready d message w.sinks p.ready;
        holds = unfold failed_delivery in p.holds;
        fresh = unfold failed_delivery in p.fresh;
        there = unfold failed_delivery in p.there;
      }))

  owned :
      (d : SinkDelivery) (w : World)
      → Busy deterministic_id job_id name d w
      → str_eq d.sink_name name ≡ true
  owned d w b = (eq_iff d.sink_name name).1 (ready_of deterministic_id job_id name d w b).sink

  opened :
      (d : SinkDelivery) (w : World) → Busy deterministic_id job_id name d w → is_pending d ≡ true
  opened d w b = ground (arith, (ready_of deterministic_id job_id name d w b).is_open)

  -- Delivering the pending delivery keeps the invariant, whatever the sink answers.
  pub deliver-Inv :
      (d : SinkDelivery) (answer : Answer) (w : World)
      → Busy deterministic_id job_id name d w
      → Inv deterministic_id job_id name (deliver name d answer w).1
  unfolding deliver
  deliver-Inv d returns w b =
      rw (owned d w b, opened d w b, deliver)
        (acknowledge-Inv d (record w { file = publish w.file d.batch }) (publish-Busy d w b))
  deliver-Inv d (raises message) w b =
      rw (owned d w b, opened d w b, deliver)
        (inr (failed_delivery d message, failed-Busy d message w b))
  deliver-Inv d (raises_after_write message) w b =
      rw (owned d w b, opened d w b, deliver)
        (inr (
          failed_delivery d message,
          failed-Busy d message (record w { file = publish w.file d.batch })
              (inr (publish-Busy d w b)),
        ))
