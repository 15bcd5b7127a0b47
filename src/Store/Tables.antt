-- ===== src/Store/Tables.antt =====
-- The store families of a unit of work (persistence/memory.py), and their sorted reads.
use sose.Prelude.{
  Bool, List, Result, String, [], decided, delete, differs, err, find, has, if◌then◌else◌,
  key_error, none, not, ok, or_raise, overlaps, pair_leb, raise_if, save, some, sorted, str_eq,
  str_leb, value_error, ◌&&◌, ◌>>=◌, ◌>>◌, ◌||◌,
}
use sose.Store.Records.{
  DurableStoreItem, DurableStoreItem-discrete, StoreDefinition, StoreDefinition-discrete,
  StoreGetRequest, StoreGetRequest-discrete, StoreGetResult, StoreGetResult-discrete,
  StorePutIntent, StorePutIntent-discrete, definition_keyed, item_keyed, put_keyed, request_keyed,
  result_keyed,
}

pub record Stores : Type 0 where
  pub definitions : List StoreDefinition
  pub items : List DurableStoreItem
  pub put_intents : List StorePutIntent
  pub get_requests : List StoreGetRequest
  pub get_results : List StoreGetResult

abbrev pub empty : Stores
empty = record {
  definitions = [];
  items = [];
  put_intents = [];
  get_requests = [];
  get_results = [];
}

unfoldable pub store_definitions : Stores → List StoreDefinition
store_definitions c = sorted (λ a b. str_leb a.name b.name) c.definitions

-- By (store_name, sequence, item_id).
abbrev pub item_leb : DurableStoreItem → DurableStoreItem → Bool
item_leb a b =
    not (str_leb b.store_name a.store_name)
    || (str_leb a.store_name b.store_name && pair_leb a.sequence a.item_id b.sequence b.item_id)

unfoldable pub store_items : Stores → List DurableStoreItem
store_items c = sorted item_leb c.items

unfoldable pub store_put_intents : Stores → List StorePutIntent
store_put_intents c =
    sorted (λ a b. pair_leb a.sequence a.item_id b.sequence b.item_id) c.put_intents

unfoldable pub store_get_requests : Stores → List StoreGetRequest
store_get_requests c =
    sorted (λ a b. pair_leb a.sequence a.request_id b.sequence b.request_id) c.get_requests

unfoldable pub store_get_results : Stores → List StoreGetResult
store_get_results c =
    sorted (λ a b. pair_leb a.sequence a.request_id b.sequence b.request_id) c.get_results

unfoldable pub save_store_definition : StoreDefinition → Stores → Result Stores
unfolding differs
save_store_definition definition c = do
  raise_if (differs StoreDefinition-discrete (find definition.name c.definitions) definition)
      (value_error "store definition already exists")
  ok (record c { definitions = save definition c.definitions })

unfoldable pub save_store_item : DurableStoreItem → Stores → Result Stores
unfolding differs
save_store_item item c = do
  raise_if (not (has item.store_name c.definitions)) (key_error "unknown store definition")
  raise_if (has item.item_id c.put_intents) (value_error "store item is still pending put")
  raise_if (differs DurableStoreItem-discrete (find item.item_id c.items) item)
      (value_error "store item already exists")
  ok (record c { items = save item c.items })

unfoldable pub delete_store_item : String → Stores → Stores
delete_store_item item_id c = record c { items = delete item_id c.items }

unfoldable pub save_store_put_intent : StorePutIntent → Stores → Result Stores
unfolding differs
save_store_put_intent intent c = do
  raise_if (not (has intent.store_name c.definitions)) (key_error "unknown store definition")
  raise_if (has intent.item_id c.items) (value_error "store item already accepted")
  raise_if (differs StorePutIntent-discrete (find intent.item_id c.put_intents) intent)
      (value_error "store put intent already exists")
  ok (record c { put_intents = save intent c.put_intents })

unfoldable pub delete_store_put_intent : String → Stores → Stores
delete_store_put_intent item_id c = record c { put_intents = delete item_id c.put_intents }

unfoldable pub save_store_get_request : StoreGetRequest → Stores → Result Stores
unfolding differs
save_store_get_request request c = do
  raise_if (not (has request.store_name c.definitions)) (key_error "unknown store definition")
  raise_if (has request.request_id c.get_results)
      (value_error "store get request already completed")
  raise_if (differs StoreGetRequest-discrete (find request.request_id c.get_requests) request)
      (value_error "store get request already exists")
  ok (record c { get_requests = save request c.get_requests })

unfoldable pub delete_store_get_request : String → Stores → Stores
delete_store_get_request request_id c = record c { get_requests = delete request_id c.get_requests }

save_new_result : StoreGetResult → Stores → Result Stores
save_new_result result c = do
  request ← or_raise (find result.request_id c.get_requests) (key_error "unknown store get request")
  raise_if (not (str_eq request.store_name result.store_name))
      (value_error "store get result targets wrong store")
  ok (record c { get_results = save result c.get_results })

unfoldable pub save_store_get_result : StoreGetResult → Stores → Result Stores
unfolding save_new_result
save_store_get_result result c =
    if not (has result.store_name c.definitions)
    then err (key_error "unknown store definition")
    else elim (find result.request_id c.get_results) [
      | some existing ↦
          if decided (StoreGetResult-discrete existing result)
          then ok c
          else err (value_error "store get result already exists")
      | none ↦ save_new_result result c
    ]

-- The store part of `commit`.
unfoldable pub check_commit : Stores → Result (Unit {0})
check_commit c =
    raise_if (overlaps c.get_requests c.get_results)
      (value_error "store get identity cannot be pending and completed")
