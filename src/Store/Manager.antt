-- ===== src/Store/Manager.antt =====
-- core/stores.py: definitions, puts and get requests. `seen` are the tables at a method's reads, and
-- the last argument is the tables at its transaction. `filters` says which filters are registered.
use sose.Prelude.{
  Bool, Option, Result, String, decided, err, find, has, is_some, key_error, max, max_of, none, not,
  ok, or_raise, raise_if, some, transaction, value_error, ℕ, ◌+◌, ◌&&◌, ◌>>=◌, ◌>>◌, ◌||◌, same,
  runtime_error,
}
use sose.Store.Records.{
  DurableStoreItem, StoreDefinition, StoreGetRequest, StoreGetResult, StoreKind, StoreKind-discrete,
  StorePutIntent, StorePutIntent-discrete, definition_keyed, item_keyed, make_item, make_put,
  make_request, put_keyed, request_keyed, result_keyed,
}
use sose.Store.Tables.{
  Stores, check_commit, delete_store_put_intent, save_store_definition, save_store_get_request,
  save_store_item, save_store_put_intent, store_definitions, store_get_requests, store_get_results,
  store_items, store_put_intents,
}

-- What the manager asks of the backend.
pub data Call : Type 0 where
  create_store : StoreKind → String → Option ℕ → Call
  put_store : String → String → String → ℕ → Call
  get_store : String → String → Option String → Call

unfoldable pub submit_put_intent : StorePutIntent → Call
submit_put_intent i = put_store i.store_name i.item_id i.value i.priority

unfoldable pub submit_get_request : StoreGetRequest → Call
submit_get_request r = get_store r.store_name r.request_id r.filter_key

abbrev pub define_body : StoreDefinition → Stores → Result (Unit {0} × Stores)
define_body definition uow = do uow ← save_store_definition definition uow; ok (tt, uow)

unfoldable pub define : StoreDefinition → Stores → Result (Unit {0}) × Stores
define definition c = transaction check_commit (define_body definition) c

unfoldable pub definition_of : Stores → String → Result StoreDefinition
definition_of seen name =
    or_raise (find name (store_definitions seen)) (key_error "unknown store definition")

unfoldable pub item_with_id : Stores → String → Option DurableStoreItem
item_with_id seen item_id = find item_id (store_items seen)

unfoldable pub pending_put_intent : Stores → String → Option StorePutIntent
pending_put_intent seen item_id = find item_id (store_put_intents seen)

unfoldable pub pending_get : Stores → String → Option StoreGetRequest
pending_get seen request_id = find request_id (store_get_requests seen)

-- `selection`, and `result`
unfoldable pub selection : Stores → String → Option StoreGetResult
selection seen request_id = find request_id (store_get_results seen)

unfoldable pub next_sequence : Stores → ℕ
next_sequence seen =
    max
      (max (max_of (λ i. i.sequence) (store_items seen))
        (max_of (λ i. i.sequence) (store_put_intents seen)))
      (max (max_of (λ r. r.sequence) (store_get_requests seen))
        (max_of (λ r. r.sequence) (store_get_results seen)))
    + 1

unfoldable pub plan_put : Stores → String → String → String → ℕ → ℕ → Result StorePutIntent
unfolding definition_of
plan_put seen store_name item_id value requested_at priority = do
  _ ← definition_of seen store_name
  raise_if (has item_id (store_items seen) || has item_id (store_put_intents seen))
      (value_error "store item already exists")
  make_put item_id store_name value priority requested_at (next_sequence seen)

abbrev pub put_body : StorePutIntent → Stores → Result (StorePutIntent × Stores)
put_body intent uow = do uow ← save_store_put_intent intent uow; ok (intent, uow)

abbrev pub put_submitted : Result StorePutIntent × Stores → Result (StorePutIntent × Call) × Stores
put_submitted (ok intent, c) = (ok (intent, submit_put_intent intent), c)
put_submitted (err e, c) = (err e, c)

unfoldable pub put :
    Stores → String → String → String → ℕ → ℕ → Stores → Result (StorePutIntent × Call) × Stores
put seen store_name item_id value requested_at priority c =
    elim (plan_put seen store_name item_id value requested_at priority) [
      | err e ↦ (err e, c)
      | ok intent ↦ put_submitted (transaction check_commit (put_body intent) c)
    ]

abbrev pub is_filter : StoreKind → Bool
is_filter kind = decided (StoreKind-discrete kind StoreKind.filter)

-- `_filter`
unfoldable pub known_filter : (String → Bool) → Option String → Result (Unit {0})
known_filter filters none = ok tt
known_filter filters (some key) =
    raise_if (not (filters key)) (key_error "unknown durable store filter")

unfoldable pub plan_get :
    (String → Bool) → Stores → String → String → ℕ → Option String → Result StoreGetRequest
unfolding definition_of known_filter
plan_get filters seen store_name request_id requested_at filter_key = do
  definition ← definition_of seen store_name
  raise_if (has request_id (store_get_requests seen) || has request_id (store_get_results seen))
      (value_error "store get request already exists")
  raise_if (is_some filter_key && not (is_filter definition.kind))
      (value_error "filter_key is supported only for filter stores")
  known_filter filters filter_key
  make_request request_id store_name requested_at (next_sequence seen) filter_key

abbrev pub get_body : StoreGetRequest → Stores → Result (StoreGetRequest × Stores)
get_body request uow = do uow ← save_store_get_request request uow; ok (request, uow)

abbrev pub get_submitted :
    Result StoreGetRequest × Stores → Result (StoreGetRequest × Call) × Stores
get_submitted (ok request, c) = (ok (request, submit_get_request request), c)
get_submitted (err e, c) = (err e, c)

unfoldable pub get :
    (String → Bool)
    → Stores
    → String
    → String
    → ℕ
    → Option String
    → Stores
    → Result (StoreGetRequest × Call) × Stores
get filters seen store_name request_id requested_at filter_key c =
    elim (plan_get filters seen store_name request_id requested_at filter_key) [
      | err e ↦ (err e, c)
      | ok request ↦ get_submitted (transaction check_commit (get_body request) c)
    ]

-- The transaction of `commit_put`.
abbrev pub commit_put_body :
    StorePutIntent → DurableStoreItem → Stores → Result (Option DurableStoreItem × Stores)
commit_put_body intent item uow = do
  raise_if (not (same StorePutIntent-discrete (find intent.item_id uow.put_intents) intent))
      (runtime_error "store put intent changed before commit")
  uow ← save_store_item item (delete_store_put_intent intent.item_id uow)
  ok (some item, uow)

abbrev pub commit_put_new :
    Option StorePutIntent → Stores → Result (Option DurableStoreItem) × Stores
commit_put_new none c = (ok none, c)
commit_put_new (some intent) c = elim (make_item intent) [
  | err e ↦ (err e, c)
  | ok item ↦ transaction check_commit (commit_put_body intent item) c
]

unfoldable pub commit_put : Stores → String → Stores → Result (Option DurableStoreItem) × Stores
commit_put seen item_id c = elim (item_with_id seen item_id) [
  | some existing ↦ (ok (some existing), c)
  | none ↦ commit_put_new (pending_put_intent seen item_id) c
]
