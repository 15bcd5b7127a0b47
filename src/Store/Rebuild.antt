-- ===== src/Store/Rebuild.antt =====
-- core/stores.py: validation of the durable tables, and their reconstruction into a fresh backend as
-- the list of calls that the backend gets.
use sose.Prelude.{
  Bool, List, Option, Result, String, [], decided, find, for_each, has, if◌then◌else◌, is_some,
  keep, length, ltb, map, none, not, ok, or_raise, pair_leb, raise_if, runtime_error, some, sorted,
  str_eq, ℕ, ◌&&◌, ◌++◌, ◌+◌, ◌==◌, ◌>>=◌, ◌>>◌, ◌||◌, ◌∷◌,
}
use sose.Store.Records.{
  DurableStoreItem, StoreDefinition, StoreGetRequest, StoreKind, StoreKind-discrete, StorePutIntent,
  definition_keyed, item_keyed, put_keyed, request_keyed,
}
use sose.Store.Tables.{
  Stores, store_definitions, store_get_requests, store_items, store_put_intents,
}
use sose.Store.Manager.{
  Call, create_store, is_filter, known_filter, put_store, submit_get_request, submit_put_intent,
}

unfoldable pub validate_get :
    (String → Bool) → List StoreDefinition → StoreGetRequest → Result (Unit {0})
validate_get filters definitions request = do
  definition ←
      or_raise (find request.store_name definitions)
        (runtime_error "store get references unknown definition")
  raise_if (is_some request.filter_key && not (is_filter definition.kind))
      (runtime_error "filtered get targets non-filter store")
  known_filter filters request.filter_key

unfoldable pub validate_store_records :
    (String → Bool) → List StoreDefinition → Stores → Result (Unit {0})
unfolding validate_get
validate_store_records filters definitions c = do
  for_each
      (λ i.
        raise_if (not (has i.store_name definitions))
          (runtime_error "store item references unknown definition"))
      (store_items c)
  for_each
      (λ i.
        raise_if (not (has i.store_name definitions))
          (runtime_error "store put references unknown definition"))
      (store_put_intents c)
  for_each (validate_get filters definitions) (store_get_requests c)

-- The items of a store.
abbrev pub items_in : String → List DurableStoreItem → List DurableStoreItem
items_in name items = keep (λ i. str_eq i.store_name name) items

abbrev pub capacity_fits : ℕ → Option ℕ → Result (Unit {0})
capacity_fits count none = ok tt
capacity_fits count (some capacity) =
    raise_if (ltb capacity count) (runtime_error "durable store contains more items than capacity")

unfoldable pub validate_store_capacities : List StoreDefinition → Stores → Result (Unit {0})
validate_store_capacities definitions c =
    for_each (λ d. capacity_fits (length (items_in d.name (store_items c))) d.capacity) definitions

unfoldable pub validate_rebuild : (String → Bool) → Stores → Result (Unit {0})
unfolding validate_store_records validate_store_capacities
validate_rebuild filters c = do
  validate_store_records filters (store_definitions c) c
  validate_store_capacities (store_definitions c) c

unfoldable pub create_backend_store : StoreDefinition → Call
create_backend_store d = create_store d.kind d.name d.capacity

-- By (priority, sequence, item_id) for a priority store, else by (sequence, item_id).
abbrev pub by_priority : DurableStoreItem → DurableStoreItem → Bool
by_priority a b =
    ltb a.priority b.priority
    || (a.priority == b.priority && pair_leb a.sequence a.item_id b.sequence b.item_id)

abbrev pub by_sequence : DurableStoreItem → DurableStoreItem → Bool
by_sequence a b = pair_leb a.sequence a.item_id b.sequence b.item_id

unfoldable pub ordered_items : StoreDefinition → List DurableStoreItem → List DurableStoreItem
ordered_items d items =
    if decided (StoreKind-discrete d.kind StoreKind.priority)
    then sorted by_priority items
    else sorted by_sequence items

abbrev pub restore_item : String → DurableStoreItem → Call
restore_item store_name i = put_store store_name i.item_id i.value i.priority

unfoldable pub restore_store_items : List StoreDefinition → Stores → List Call
unfolding ordered_items
restore_store_items [] c = []
restore_store_items (d ∷ definitions) c =
    map (restore_item d.name) (ordered_items d (items_in d.name (store_items c)))
    ++ restore_store_items definitions c

-- A pending operation.
pub data Pending : Type 0 where
  pending_put : StorePutIntent → Pending
  pending_request : StoreGetRequest → Pending

abbrev sequence_of : Pending → ℕ
sequence_of (pending_put i) = i.sequence
sequence_of (pending_request r) = r.sequence

abbrev is_put : Pending → Bool
is_put (pending_put i) = Bool.true
is_put (pending_request r) = Bool.false

-- By (sequence, 0 for a put and 1 for a get).
abbrev pub pending_leb : Pending → Pending → Bool
pending_leb a b =
    ltb (sequence_of a) (sequence_of b)
    || (sequence_of a == sequence_of b && (is_put a || not (is_put b)))

abbrev pub submit : Pending → Call
submit (pending_put i) = submit_put_intent i
submit (pending_request r) = submit_get_request r

unfoldable pub restore_pending_operations : Stores → List Call
restore_pending_operations c = map submit (
    sorted pending_leb
      (map pending_put (store_put_intents c) ++ map pending_request (store_get_requests c)))

unfoldable pub rebuild_backend : (String → Bool) → Stores → Result (List Call × ℕ)
unfolding validate_rebuild create_backend_store restore_store_items restore_pending_operations
rebuild_backend filters c = do
  validate_rebuild filters c
  let items = restore_store_items (store_definitions c) c
  let pending = restore_pending_operations c
  ok (
    map create_backend_store (store_definitions c) ++ (items ++ pending),
    length items + length pending,
  )
