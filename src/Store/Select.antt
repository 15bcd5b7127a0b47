-- ===== src/Store/Select.antt =====
-- core/stores.py: `commit_get`, which gives an item to a request. `again` are the tables at the
-- second read of the request's selection.
use sose.Prelude.{
  Option, Result, String, err, find, has, if◌then◌else◌, key_error, none, not, ok, or_raise,
  raise_if, runtime_error, same, some, str_eq, transaction, ℕ, ◌>>=◌, ◌>>◌, ◌||◌, delete,
}
use sose.Store.Records.{
  DurableStoreItem, StoreGetRequest, StoreGetRequest-discrete, StoreGetResult, StorePutIntent,
  item_keyed, make_item, make_result, put_keyed, request_keyed, result_keyed,
}
use sose.Store.Tables.{Stores, check_commit, delete_store_get_request, save_store_get_result}
use sose.Store.Manager.{item_with_id, pending_get, pending_put_intent, selection}

-- The identity and the store of the item that the backend has chosen.
pub record BackendItem : Type 0 where
  pub item_id : String
  pub store_name : String

-- `_consume_store_item`; `none` stands for an item that is neither stored nor pending.
unfoldable pub consume_store_item :
    Option DurableStoreItem → Option StorePutIntent → Result (Option DurableStoreItem)
consume_store_item (some item) intent = ok (some item)
consume_store_item none none = ok none
consume_store_item none (some intent) = do item ← make_item intent; ok (some item)

-- `_consume_persisted_store_item`
unfoldable pub consume_persisted_store_item : String → Stores → Result Stores
consume_persisted_store_item item_id uow = do
  raise_if (not (has item_id uow.items || has item_id uow.put_intents))
      (runtime_error "store item disappeared during consume")
  ok (record uow {
    items = if has item_id uow.items then delete item_id uow.items else uow.items;
    put_intents =
        if has item_id uow.put_intents then delete item_id uow.put_intents else uow.put_intents;
  })

-- The transaction of `commit_get`.
unfoldable pub select_body :
    StoreGetRequest → String → StoreGetResult → Stores → Result (StoreGetResult × Stores)
unfolding consume_persisted_store_item
select_body request item_id result uow =
    if same StoreGetRequest-discrete (find request.request_id uow.get_requests) request
    then (do
      uow ← consume_persisted_store_item item_id uow
      uow ← save_store_get_result result uow
      ok (result, delete_store_get_request request.request_id uow))
    else (do
      existing ←
          or_raise (find request.request_id uow.get_results)
            (runtime_error "store get request changed")
      ok (existing, uow))

-- What `commit_get` has read when it decides what to do.
pub data Choice : Type 0 where
  winner : StoreGetResult → Choice
  give : StoreGetRequest → StoreGetResult → Choice

abbrev pub given : Stores → StoreGetRequest → ℕ → Option DurableStoreItem → Result Choice
given again request completed_at none = do
  r ← or_raise (selection again request.request_id) (key_error "unknown durable store item")
  ok (winner r)
given again request completed_at (some item) = do
  result ← make_result request item completed_at
  ok (give request result)

unfoldable pub choose : Stores → Stores → String → BackendItem → ℕ → Result Choice
unfolding consume_store_item pending_get
choose seen again request_id backend_item completed_at = do
  request ← or_raise (pending_get seen request_id) (key_error "unknown store get request")
  raise_if (not (str_eq backend_item.store_name request.store_name))
      (runtime_error "store get returned item from wrong store")
  item ←
      consume_store_item (item_with_id seen backend_item.item_id)
        (pending_put_intent seen backend_item.item_id)
  given again request completed_at item

abbrev pub carry_out : String → Choice → Stores → Result StoreGetResult × Stores
carry_out item_id (winner r) c = (ok r, c)
carry_out item_id (give request result) c =
    transaction check_commit (select_body request item_id result) c

unfoldable pub commit_get :
    Stores → Stores → String → BackendItem → ℕ → Stores → Result StoreGetResult × Stores
unfolding choose
commit_get seen again request_id backend_item completed_at c = elim (selection seen request_id) [
  | some existing ↦ (ok existing, c)
  | none ↦ elim (choose seen again request_id backend_item completed_at) [
    | err e ↦ (err e, c)
    | ok choice ↦ carry_out backend_item.item_id choice c
  ]
]
