-- ===== src/Domain/Tests.antt =====
-- Runs of the outbox at concrete inputs, and the theorems at inputs that meet their hypotheses.
use sose.Prelude.{
  String-discrete, ℕ_discrete, List, [], find, none, ok, refl, runtime_error, save, some, delete,
  sorted, ◌∷◌, ◌≡◌,
}
use sose.Domain.Warehouse.{
  DomainMutation, DomainMutation-discrete, Entity, Entity-discrete, applied, apply, find_entity,
  mutation_keyed, put_entity, replayed,
}
use sose.Domain.Outbox.{
  deliver, deliver_all, delivery_keyed, domain_deliveries, enqueue, flush, prepare,
  save_domain_delivery, try_apply,
}
use sose.Domain.Latest.{Latest}
use sose.Domain.Held.{Held}
use sose.Domain.Drain.{flush_drains}
use sose.Domain.System.{
  Step, delivers, dies, flushes, never_lost, prepares, replay_harmless, run, start, step,
  run-Latest,
}

abbrev order : Entity
order = record {
  id = "o1";
  entity_type = "order";
  state = "open";
  attributes = "{}";
  created_at = none;
  updated_at = none;
  version = 1;
}

abbrev opened : DomainMutation
opened = record { mutation_id = "m1"; entity = order }

abbrev closed : DomainMutation
closed = record { mutation_id = "m2"; entity = record order { state = "closed"; version = 2 } }

-- The later version is delivered first, by a process that dies before it acknowledges.
abbrev history : List Step
history =
    prepares opened ∷ prepares closed ∷ dies "m2" ∷ delivers (some (runtime_error "away")) "m1" ∷ []

run-Latest_example : Latest (run start (prepares opened ∷ history)).warehouse
run-Latest_example = run-Latest (prepares opened ∷ history)

never_lost_example : Held "m1" opened (run (prepare opened (run start [])).1 history)
unfolding prepare enqueue run save_domain_delivery find save
never_lost_example =
    never_lost [] history opened (record { mutation = opened; attempts = 0; last_error = none })
      refl

-- The process dies between the answer and its acknowledgement, and delivers again.
abbrev unanswered : List Step
unanswered = prepares opened ∷ prepares closed ∷ []

replay_harmless_example :
    let d = run start unanswered in
    let w =
      (run (record d { warehouse = (apply closed d.warehouse).1 }) (flushes none ∷ [])).warehouse in
    apply closed w ≡ (ok replayed, w)
unfolding run step prepare enqueue deliver apply save_domain_delivery find_entity put_entity find
    save try_apply DomainMutation-discrete Entity-discrete String-discrete ℕ_discrete
replay_harmless_example = replay_harmless unanswered (flushes none ∷ []) closed applied refl

-- The later version stays.
both : (run (run start history) (flushes none ∷ [])).warehouse.entities ≡ closed.entity ∷ []
unfolding run step prepare enqueue deliver deliver_all flush domain_deliveries apply
    save_domain_delivery find_entity put_entity find save delete sorted try_apply
    DomainMutation-discrete Entity-discrete String-discrete ℕ_discrete
both = refl

flush_drains_example : find "m1" (flush none (run start history)).1.deliveries ≡ none
unfolding run step prepare enqueue deliver deliver_all flush domain_deliveries apply
    save_domain_delivery find_entity put_entity find save delete sorted try_apply
    DomainMutation-discrete Entity-discrete String-discrete ℕ_discrete
flush_drains_example = flush_drains history none 2 refl "m1"
