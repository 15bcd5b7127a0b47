-- ===== src/Domain/Outbox.antt =====
-- domain/outbox.py and domain/delivery.py, with the table of deliveries (persistence/memory.py), and
-- the view of domain/entity_store.py. The text of an exception is the exception.
use sose.Prelude.{
  Bool, Error, Keyed, List, Option, Result, String, [], decided, delete, err, find, keep, map, none,
  not, ok, raise_if, runtime_error, save, some, sorted, str_leb, transaction, value_error, ℕ, ◌+◌,
  ◌==◌, ◌>>=◌, ◌>>◌, ◌∷◌, max_of,
}
use sose.Domain.Warehouse.{
  DomainApplyResult, DomainMutation, DomainMutation-discrete, Entity, Entity-discrete,
  MemoryDomainWarehouse, apply, find_entity, same_entity,
}

pub record DomainDelivery : Type 0 where
  pub mutation : DomainMutation
  pub attempts : ℕ
  pub last_error : Option Error

instance abbrev pub delivery_keyed : Keyed DomainDelivery
delivery_keyed = record { key = λ d. d.mutation.mutation_id }

abbrev pub Deliveries : Type 0
Deliveries = List DomainDelivery

abbrev pub no_check : Deliveries → Result (Unit {0})
no_check deliveries = ok tt

-- Whether a stored delivery is of another mutation.
abbrev pub conflicts : Option DomainDelivery → DomainMutation → Bool
conflicts none mutation = Bool.false
conflicts (some existing) mutation =
    not (decided (DomainMutation-discrete existing.mutation mutation))

unfoldable pub save_domain_delivery : DomainDelivery → Deliveries → Result Deliveries
save_domain_delivery delivery deliveries = do
  raise_if (conflicts (find delivery.mutation.mutation_id deliveries) delivery.mutation)
      (value_error "domain mutation identity conflict")
  ok (save delivery deliveries)

unfoldable pub domain_deliveries : Deliveries → List DomainDelivery
domain_deliveries deliveries =
    sorted (λ a b. str_leb a.mutation.mutation_id b.mutation.mutation_id) deliveries

-- `enqueue`, given what it finds in the table.
abbrev pub enqueue_found :
    Option DomainDelivery → DomainMutation → Deliveries → Result (DomainDelivery × Deliveries)
enqueue_found (some existing) mutation uow = do
  raise_if (not (decided (DomainMutation-discrete existing.mutation mutation)))
      (value_error "domain mutation identity conflict")
  ok (existing, uow)
enqueue_found none mutation uow = do
  uow ← save_domain_delivery (record { mutation = mutation; attempts = 0; last_error = none }) uow
  ok (record { mutation = mutation; attempts = 0; last_error = none }, uow)

unfoldable pub enqueue : DomainMutation → Deliveries → Result (DomainDelivery × Deliveries)
enqueue mutation uow = enqueue_found (find mutation.mutation_id uow) mutation uow

-- The engine's table and the warehouse.
pub record Domain : Type 0 where
  pub deliveries : Deliveries
  pub warehouse : MemoryDomainWarehouse

unfoldable pub prepare : DomainMutation → Domain → Result DomainDelivery × Domain
unfolding enqueue
prepare mutation d =
    let (answer, deliveries) = transaction no_check (enqueue mutation) d.deliveries in
    (answer, record d { deliveries = deliveries })

-- `warehouse.apply`: the warehouse may be out of reach and raise.
unfoldable pub try_apply :
    Option Error
    → DomainMutation
    → MemoryDomainWarehouse
    → Result DomainApplyResult × MemoryDomainWarehouse
unfolding apply
try_apply (some e) mutation w = (err e, w)
try_apply none mutation w = apply mutation w

-- The transaction that records a failure, given what it finds in the table.
abbrev pub failure_from :
    Option DomainDelivery → DomainDelivery → Error → Deliveries → Result (Unit {0} × Deliveries)
failure_from none current e uow = ok (tt, uow)
failure_from (some latest) current e uow = do
  uow ←
      save_domain_delivery (record current { attempts = current.attempts + 1; last_error = some e })
        uow
  ok (tt, uow)

abbrev pub failure_body : DomainDelivery → Error → Deliveries → Result (Unit {0} × Deliveries)
failure_body current e uow = failure_from (find current.mutation.mutation_id uow) current e uow

abbrev pub raised_after :
    Error
    → Result (Unit {0}) × Deliveries
    → MemoryDomainWarehouse
    → Result (Option DomainApplyResult) × Domain
raised_after e (ok _, deliveries) w = (err e, record { deliveries = deliveries; warehouse = w })
raised_after e (err other, deliveries) w =
    (err other, record { deliveries = deliveries; warehouse = w })

abbrev pub acknowledged :
    DomainDelivery
    → Deliveries
    → Result DomainApplyResult × MemoryDomainWarehouse
    → Result (Option DomainApplyResult) × Domain
acknowledged current deliveries (err e, w) =
    raised_after e (transaction no_check (failure_body current e) deliveries) w
acknowledged current deliveries (ok result, w) = (
  ok (some result),
  record { deliveries = delete current.mutation.mutation_id deliveries; warehouse = w },
)

-- `deliver`; `broken` is what the warehouse raises before it has applied anything.
unfoldable pub deliver : Option Error → String → Domain → Result (Option DomainApplyResult) × Domain
unfolding try_apply save_domain_delivery
deliver broken mutation_id d = elim (find mutation_id d.deliveries) [
  | none ↦ (ok none, d)
  | some current ↦ acknowledged current d.deliveries (try_apply broken current.mutation d.warehouse)
]

-- The loop of `flush`, which an exception ends.
unfoldable pub deliver_all : Option Error → List DomainDelivery → Domain → Result ℕ × Domain
unfolding deliver
deliver_all broken [] d = (ok 0, d)
deliver_all broken (delivery ∷ others) d =
    let (answer, d') = deliver broken delivery.mutation.mutation_id d in
    let (count, d'') = deliver_all broken others d' in
    elim answer [ err e ↦ (err e, d') | ok _ ↦ (count >>= (λ n. ok (n + 1)), d'') ]

unfoldable pub flush : Option Error → Domain → Result ℕ × Domain
unfolding deliver_all domain_deliveries
flush broken d = deliver_all broken (domain_deliveries d.deliveries) d

-- `_pending_entities_for`
unfoldable pub pending_entities_for : String → String → Deliveries → List Entity
unfolding domain_deliveries
pending_entities_for kind id deliveries =
    keep (same_entity kind id) (map (λ x. x.mutation.entity) (domain_deliveries deliveries))

abbrev pub all_equal : List Entity → Result (Option Entity)
all_equal [] = ok none
all_equal (e ∷ others) = elim (keep (λ x. not (decided (Entity-discrete x e))) others) [
  | [] ↦ ok (some e)
  | x ∷ xs ↦ err (runtime_error "conflicting domain entity version")
]

-- `_latest_consistent_entity`, and `none` for no candidates
unfoldable pub latest_consistent_entity : List Entity → Result (Option Entity)
latest_consistent_entity candidates =
    all_equal (keep (λ e. e.version == max_of (λ x. x.version) candidates) candidates)

abbrev pub candidates_of : Option Entity → List Entity → List Entity
candidates_of none pending = pending
candidates_of (some e) pending = e ∷ pending

-- `WarehouseBackedEntityStore.entity`
unfoldable pub entity : String → String → Domain → Result (Option Entity)
unfolding pending_entities_for latest_consistent_entity
entity kind id d = latest_consistent_entity (
    candidates_of (find_entity kind id d.warehouse.entities)
      (pending_entities_for kind id d.deliveries))
