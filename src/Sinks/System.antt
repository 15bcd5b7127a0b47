-- ===== src/Sinks/System.antt =====
-- Histories of one worker that delivers one job's events to one sink: events are appended, the
-- sink answers or raises, and the process dies between the steps of `flush`.
use sose.Prelude.{
  List, Option, Result, String, [], ap, arith, err, inl, inr, length, length-append, none, ok, refl,
  some, sym, take, take-append, take_all, ℕ, ◌++◌, ◌∙◌, ◌∷◌, ◌≡◌, ◌≢◌, ◌≤◌,
}
use sose.Sinks.Model.{
  AnalyticalBatch, DomainEvent, SimulationJobState, SinkDelivery, delivery_keyed,
}
use sose.Sinks.Tables.{Sinks, contains, find_checkpoint, publish, published_events}
use sose.Sinks.Outbox.{
  Answer, Part, World, deliver, delivered_as, flush, flush_prepared, offset_of, prepare,
}
use sose.Sinks.Invariant.{Distinct, Idle, Inv, Ready, checkpoint_offset}
use sose.Sinks.Deliver.{deliver-Inv, publish-Busy}
use sose.Sinks.Prepare.{pending-Idle, prepare_cases}

pub data Step : Type 0 where
  emits : DomainEvent → Step
  prepares : SimulationJobState → Step
  flushes : SimulationJobState → Answer → Step
  dies_after_publish : SimulationJobState → Step

abbrev pub start : World
start = record {
  sinks = record { sink_deliveries = []; sink_checkpoints = []; events = [] };
  file = [];
}

abbrev with_file : List AnalyticalBatch → Result (Option SinkDelivery) × Sinks → World
with_file file (r, s) = record { sinks = s; file = file }

abbrev published_only : List AnalyticalBatch → Result (Option SinkDelivery) × Sinks → World
published_only file (err e, s) = record { sinks = s; file = file }
published_only file (ok none, s) = record { sinks = s; file = file }
published_only file (ok (some d), s) = record { sinks = s; file = publish file d.batch }

abbrev emit : DomainEvent → World → World
emit e w = record w { sinks = record w.sinks { events = w.sinks.events ++ e ∷ [] } }

-- The state that a worker of the job passes.
abbrev pub of_job : String → SimulationJobState → SimulationJobState
of_job job_id state = record state { job_id = job_id }

module _ (deterministic_id : String → List Part → String) (job_id name : String) where
  unfoldable pub step : World → Step → World
  unfolding flush prepare
  step w (emits e) = emit e w
  step w (prepares state) =
      with_file w.file (prepare deterministic_id (of_job job_id state) name w.sinks w.sinks)
  step w (flushes state answer) = (flush deterministic_id (of_job job_id state) name answer w).1
  step w (dies_after_publish state) =
      published_only w.file (prepare deterministic_id (of_job job_id state) name w.sinks w.sinks)

  unfoldable pub run : World → List Step → World
  unfolding step
  run w [] = w
  run w (s ∷ steps) = run (step w s) steps

delivered_as-state : (o : Result SinkDelivery × World) → (delivered_as o).1 ≡ o.1
delivered_as-state (ok d, w) = refl
delivered_as-state (err e, w) = refl

module _ (deterministic_id : String → List Part → String) (job_id name : String) where
  emit-Ready :
      (d : SinkDelivery) (e : DomainEvent) (s : Sinks)
      → Ready deterministic_id job_id name d s
      → Ready deterministic_id job_id name d (record s { events = s.events ++ e ∷ [] })
  unfolding checkpoint_offset
  emit-Ready d e s r = record {
    alone = r.alone;
    sink = r.sink;
    job = r.job;
    is_open = r.is_open;
    from = r.from;
    nonempty = r.nonempty;
    within = omega (arith, r.within, length-append s.events (e ∷ []));
    last = r.last;
    batch_identity = r.batch_identity;
    slice =
        ap (λ es. es ++ d.batch.events)
          (take-append _ s.events (e ∷ []) (omega (arith, r.within, r.nonempty)))
        ∙ r.slice
        ∙ sym (take-append _ s.events (e ∷ []) r.within);
  }

  emit-Inv :
      (e : DomainEvent) (w : World)
      → Inv deterministic_id job_id name w
      → Inv deterministic_id job_id name (emit e w)
  unfolding checkpoint_offset
  emit-Inv e w (inl i) = inl (record {
    none_pending = i.none_pending;
    within = omega (arith, i.within, length-append w.sinks.events (e ∷ []));
    holds = i.holds ∙ sym (take-append _ w.sinks.events (e ∷ []) i.within);
    fresh = i.fresh;
  })
  emit-Inv e w (inr (d, inl p)) = inr (
    d,
    inl (record {
      ready = emit-Ready d e w.sinks p.ready;
      holds =
          p.holds
          ∙ sym (
              take-append _ w.sinks.events (e ∷ [])
                (omega (arith, p.ready.within, p.ready.nonempty)));
      fresh = p.fresh;
    }),
  )
  emit-Inv e w (inr (d, inr p)) = inr (
    d,
    inr (record {
      ready = emit-Ready d e w.sinks p.ready;
      holds = p.holds ∙ sym (take-append _ w.sinks.events (e ∷ []) p.ready.within);
      fresh = p.fresh;
      there = p.there;
    }),
  )

  module _ (distinct : Distinct deterministic_id job_id name) where
    step-Inv :
        (w : World) (s : Step)
        → Inv deterministic_id job_id name w
        → Inv deterministic_id job_id name (step deterministic_id job_id name w s)
    unfolding step flush
    step-Inv w (emits e) v = emit-Inv e w v
    step-Inv w (prepares state) v =
        prepare_cases deterministic_id (of_job job_id state) name
          (λ o. Inv deterministic_id job_id name (with_file w.file o)) w v (λ e. v) (λ i h. v)
          (λ d s same b. inr (d, b))
    step-Inv w (flushes state answer) v =
        prepare_cases deterministic_id (of_job job_id state) name
          (λ o.
            Inv deterministic_id job_id name
              (flush_prepared deterministic_id (of_job job_id state) name answer w.file o).1)
          w v (λ e. v) (λ i h. rw (pending-Idle deterministic_id (of_job job_id state) name w i) v)
          (λ d s same b.
            rw delivered_as-state (
              deliver-Inv deterministic_id job_id name distinct d answer (record w { sinks = s })
                b))
    step-Inv w (dies_after_publish state) v =
        prepare_cases deterministic_id (of_job job_id state) name
          (λ o. Inv deterministic_id job_id name (published_only w.file o)) w v (λ e. v) (λ i h. v)
          (λ d s same b. inr (
            d,
            inr (publish-Busy deterministic_id job_id name distinct d (record w { sinks = s }) b),
          ))

    pub run-Inv :
        (w : World) (steps : List Step)
        → Inv deterministic_id job_id name w
        → Inv deterministic_id job_id name (run deterministic_id job_id name w steps)
    unfolding run
    run-Inv w [] v = v
    run-Inv w (s ∷ steps) v = run-Inv (step deterministic_id job_id name w s) steps (step-Inv w s v)

    start-Idle : Idle deterministic_id job_id name start
    unfolding checkpoint_offset offset_of find_checkpoint published_events contains
    start-Idle = record {
      none_pending = refl;
      within = omega arith;
      holds = refl;
      fresh = λ f t l h. refl;
    }

    prefix :
        (w : World)
        → Inv deterministic_id job_id name w
        → (n : ℕ) × (checkpoint_offset job_id name w.sinks ≤ n)
          × (n ≤ length w.sinks.events)
          × (published_events w.file ≡ take n w.sinks.events)
    prefix w (inl i) = (checkpoint_offset job_id name w.sinks, omega arith, i.within, i.holds)
    prefix w (inr (d, inl p)) = (
      d.batch.from_event_offset,
      omega (arith, p.ready.from),
      omega (arith, p.ready.within, p.ready.nonempty),
      p.holds,
    )
    prefix w (inr (d, inr p)) = (
      d.batch.to_event_offset,
      omega (arith, p.ready.from, p.ready.nonempty),
      p.ready.within,
      p.holds,
    )

    some_delivered : (o : Result SinkDelivery × World) → (delivered_as o).0 ≢ ok none
    some_delivered (ok d, w) e = cc
    some_delivered (err x, w) e = cc

    flushed_out :
        (state : SimulationJobState) (answer : Answer) (w : World)
        → Inv deterministic_id job_id name w
        → (flush deterministic_id (of_job job_id state) name answer w).0 ≡ ok none
        → ((flush deterministic_id (of_job job_id state) name answer w).1 ≡ w)
          × (published_events w.file ≡ w.sinks.events)
    unfolding flush
    flushed_out state answer w v =
        prepare_cases deterministic_id (of_job job_id state) name
          (λ o.
            (flush_prepared deterministic_id (of_job job_id state) name answer w.file o).0 ≡ ok none
            → ((flush_prepared deterministic_id (of_job job_id state) name answer w.file o).1 ≡ w)
              × (published_events w.file ≡ w.sinks.events))
          w v (λ e h. cc)
          (λ i h e. (
            rw (pending-Idle deterministic_id (of_job job_id state) name w i) refl,
            i.holds ∙ take_all _ w.sinks.events h,
          ))
          (λ d s same b h.
            absurd (some_delivered (deliver name d answer (record w { sinks = s })) h))

    -- One worker delivers one job's events to one sink, and batches that start at different offsets
    -- have different identities. Whatever the order in which events are appended, deliveries are
    -- prepared, the sink raises, before or after it has written, and the process dies, also after the
    -- sink has written and before the checkpoint has moved: the file of the sink holds a prefix of the events, each once and in
    -- order, and the prefix reaches at least to the checkpoint.
    pub published_once :
        (steps : List Step)
        → let w = run deterministic_id job_id name start steps in
          (n : ℕ) × (checkpoint_offset job_id name w.sinks ≤ n)
          × (n ≤ length w.sinks.events)
          × (published_events w.file ≡ take n w.sinks.events)
    published_once steps = prefix _ (run-Inv start steps (inl start-Idle))

    -- After any such history of one worker with distinct identities, when `flush` returns that there
    -- is nothing to deliver, it has changed nothing and the file holds exactly the events that were
    -- appended.
    pub flush-none :
        (steps : List Step) (state : SimulationJobState) (answer : Answer)
        → let w = run deterministic_id job_id name start steps in
          (flush deterministic_id (of_job job_id state) name answer w).0 ≡ ok none
          → ((flush deterministic_id (of_job job_id state) name answer w).1 ≡ w)
            × (published_events w.file ≡ w.sinks.events)
    flush-none steps state answer =
        flushed_out state answer _ (run-Inv start steps (inl start-Idle))
