-- ===== src/Domain/Warehouse.antt =====
-- domain/entity.py, domain/warehouse.py: entities, mutations and the reference warehouse.
-- Attributes are their JSON text; versions and times are natural numbers.
use sose.Prelude.{
  Bool, Keyed, List, Option, Result, String, [], decided, discrete_fields, err, find, if◌then◌else◌,
  ltb, none, not, ok, raise_if, save, some, str_eq, value_error, ℕ, ◌&&◌, ◌+◌, ◌==◌, ◌>>◌, ◌∷◌,
}

pub record Entity : Type 0 where
  pub id : String
  pub entity_type : String
  pub state : String
  pub attributes : String
  pub created_at : Option ℕ
  pub updated_at : Option ℕ
  pub version : ℕ

pub record DomainMutation : Type 0 where
  pub mutation_id : String
  pub entity : Entity

instance abbrev pub mutation_keyed : Keyed DomainMutation
mutation_keyed = record { key = λ m. m.mutation_id }

unfoldable pub Entity-discrete : Discrete Entity
Entity-discrete = hlevel discrete_fields

unfoldable pub DomainMutation-discrete : Discrete DomainMutation
DomainMutation-discrete = hlevel (discrete_fields, Entity-discrete)

-- `Entity.touch`
unfoldable pub touch : ℕ → Entity → Entity
touch at e = record e {
  created_at = elim e.created_at [ none ↦ some at | some t ↦ some t ];
  updated_at = some at;
  version = e.version + 1;
}

abbrev pub same_entity : String → String → Entity → Bool
same_entity kind id e = str_eq e.entity_type kind && str_eq e.id id

-- `self._entities.get((entity_type, entity_id))`
unfoldable pub find_entity : String → String → List Entity → Option Entity
find_entity kind id [] = none
find_entity kind id (e ∷ rows) = if same_entity kind id e then some e else find_entity kind id rows

-- `self._entities[key] = entity`
unfoldable pub put_entity : Entity → List Entity → List Entity
put_entity new [] = new ∷ []
put_entity new (e ∷ rows) =
    if same_entity new.entity_type new.id e then new ∷ rows else e ∷ put_entity new rows

pub record MemoryDomainWarehouse : Type 0 where
  pub entities : List Entity
  pub mutations : List DomainMutation

pub data DomainApplyResult : Type 0 where
  applied replayed superseded : DomainApplyResult

abbrev pub recorded : DomainMutation → MemoryDomainWarehouse → MemoryDomainWarehouse
recorded mutation w = record w { mutations = save mutation w.mutations }

-- A mutation that is new to the warehouse.
abbrev pub apply_new :
    DomainMutation
    → MemoryDomainWarehouse
    → Option Entity
    → Result DomainApplyResult × MemoryDomainWarehouse
apply_new mutation w none =
    (ok applied, record (recorded mutation w) { entities = put_entity mutation.entity w.entities })
apply_new mutation w (some current) =
    if ltb mutation.entity.version current.version
    then (ok superseded, recorded mutation w)
    else if mutation.entity.version == current.version
    then (if not (decided (Entity-discrete mutation.entity current))
        then (err (value_error "conflicting domain entity version"), w)
        else (ok replayed, recorded mutation w))
    else (
      ok applied,
      record (recorded mutation w) { entities = put_entity mutation.entity w.entities },
    )

unfoldable pub apply :
    DomainMutation → MemoryDomainWarehouse → Result DomainApplyResult × MemoryDomainWarehouse
unfolding find_entity put_entity
apply mutation w = elim (find mutation.mutation_id w.mutations) [
  | some existing ↦ (
    raise_if (not (decided (DomainMutation-discrete existing mutation)))
          (value_error "domain mutation identity conflict")
        >> ok replayed,
    w,
  )
  | none ↦
      apply_new mutation w (find_entity mutation.entity.entity_type mutation.entity.id w.entities)
]
