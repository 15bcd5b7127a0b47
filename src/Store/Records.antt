-- ===== src/Store/Records.antt =====
-- The store records of sose/core/runtime.py, with the checks of their `__post_init__`. A value is
-- its JSON text; times, priorities and capacities are natural numbers.
use sose.Prelude.{
  Keyed, not, Option, Result, String, discrete_fields, none, ok, raise_if, some, str_eq,
  value_error, ℕ, ◌==◌, ◌>>◌,
}

-- "fifo", "priority" or "filter"
pub data StoreKind : Type 0 where
  fifo priority filter : StoreKind

pub record StoreDefinition : Type 0 where
  pub name : String
  pub kind : StoreKind
  pub capacity : Option ℕ

pub record DurableStoreItem : Type 0 where
  pub item_id : String
  pub store_name : String
  pub value : String
  pub priority : ℕ
  pub sequence : ℕ

pub record StorePutIntent : Type 0 where
  pub item_id : String
  pub store_name : String
  pub value : String
  pub priority : ℕ
  pub requested_at : ℕ
  pub sequence : ℕ

pub record StoreGetRequest : Type 0 where
  pub request_id : String
  pub store_name : String
  pub requested_at : ℕ
  pub sequence : ℕ
  pub filter_key : Option String

pub record StoreGetResult : Type 0 where
  pub request_id : String
  pub store_name : String
  pub item : DurableStoreItem
  pub completed_at : ℕ
  pub sequence : ℕ

instance abbrev pub definition_keyed : Keyed StoreDefinition
definition_keyed = record { key = λ d. d.name }

instance abbrev pub item_keyed : Keyed DurableStoreItem
item_keyed = record { key = λ i. i.item_id }

instance abbrev pub put_keyed : Keyed StorePutIntent
put_keyed = record { key = λ i. i.item_id }

instance abbrev pub request_keyed : Keyed StoreGetRequest
request_keyed = record { key = λ r. r.request_id }

instance abbrev pub result_keyed : Keyed StoreGetResult
result_keyed = record { key = λ r. r.request_id }

unfoldable pub StoreKind-discrete : Discrete StoreKind
StoreKind-discrete = hlevel

unfoldable pub StoreDefinition-discrete : Discrete StoreDefinition
StoreDefinition-discrete = hlevel (discrete_fields, StoreKind-discrete)

unfoldable pub DurableStoreItem-discrete : Discrete DurableStoreItem
DurableStoreItem-discrete = hlevel discrete_fields

unfoldable pub StorePutIntent-discrete : Discrete StorePutIntent
StorePutIntent-discrete = hlevel discrete_fields

unfoldable pub StoreGetRequest-discrete : Discrete StoreGetRequest
StoreGetRequest-discrete = hlevel discrete_fields

unfoldable pub StoreGetResult-discrete : Discrete StoreGetResult
StoreGetResult-discrete = hlevel (discrete_fields, DurableStoreItem-discrete)

unfoldable pub make_definition : String → StoreKind → Option ℕ → Result StoreDefinition
make_definition name kind capacity = do
  raise_if (str_eq name "") (value_error "store name cannot be empty")
  elim capacity [
    | none ↦ ok tt
    | some n ↦ raise_if (n == 0) (value_error "store capacity must be >= 1")
  ]
  ok (record { name = name; kind = kind; capacity = capacity })

-- The item of a put.
unfoldable pub make_item : StorePutIntent → Result DurableStoreItem
make_item intent = do
  raise_if (str_eq intent.item_id "") (value_error "item_id cannot be empty")
  raise_if (str_eq intent.store_name "") (value_error "store_name cannot be empty")
  raise_if (intent.sequence == 0) (value_error "store item sequence must be >= 1")
  ok (record {
    item_id = intent.item_id;
    store_name = intent.store_name;
    value = intent.value;
    priority = intent.priority;
    sequence = intent.sequence;
  })

unfoldable pub make_put : String → String → String → ℕ → ℕ → ℕ → Result StorePutIntent
make_put item_id store_name value prio requested_at sequence = do
  raise_if (str_eq item_id "") (value_error "item_id cannot be empty")
  raise_if (str_eq store_name "") (value_error "store_name cannot be empty")
  raise_if (sequence == 0) (value_error "store put sequence must be >= 1")
  ok (record {
    item_id = item_id;
    store_name = store_name;
    value = value;
    priority = prio;
    requested_at = requested_at;
    sequence = sequence;
  })

unfoldable pub make_request : String → String → ℕ → ℕ → Option String → Result StoreGetRequest
make_request request_id store_name requested_at sequence filter_key = do
  raise_if (str_eq request_id "") (value_error "request_id cannot be empty")
  raise_if (str_eq store_name "") (value_error "store_name cannot be empty")
  raise_if (sequence == 0) (value_error "store get sequence must be >= 1")
  ok (record {
    request_id = request_id;
    store_name = store_name;
    requested_at = requested_at;
    sequence = sequence;
    filter_key = filter_key;
  })

-- The result of a request that is given an item.
unfoldable pub make_result : StoreGetRequest → DurableStoreItem → ℕ → Result StoreGetResult
make_result request item completed_at = do
  raise_if (str_eq request.request_id "") (value_error "request_id cannot be empty")
  raise_if (str_eq request.store_name "") (value_error "store_name cannot be empty")
  raise_if (not (str_eq item.store_name request.store_name))
      (value_error "store get result item belongs to a different store")
  raise_if (request.sequence == 0) (value_error "store get result sequence must be >= 1")
  ok (record {
    request_id = request.request_id;
    store_name = request.store_name;
    item = item;
    completed_at = completed_at;
    sequence = request.sequence;
  })
