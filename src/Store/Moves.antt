-- ===== src/Store/Moves.antt =====
-- What the transactions of the stores do, where they succeed.
use sose.Prelude.{
  delete_if-has, Bool-cases, Option, String, arith, delete, find, has, inl, inr, none, ok, same,
  same→eq, save, some, true, ◌≡◌, ◌||◌, ◌⊎◌,
}
use sose.Store.Records.{
  DurableStoreItem, StoreDefinition, StoreGetRequest, StoreGetRequest-discrete, StoreGetResult,
  StorePutIntent, StorePutIntent-discrete, definition_keyed, item_keyed, make_item, put_keyed,
  request_keyed, result_keyed,
}
use sose.Store.Tables.{
  Stores, delete_store_get_request, delete_store_put_intent, save_store_definition,
  save_store_get_request, save_store_get_result, save_store_item, save_store_put_intent,
}
use sose.Store.Manager.{commit_put_body, define_body, get_body, put_body}
use sose.Store.Select.{consume_persisted_store_item, select_body}

pub record Defined (d : StoreDefinition) (c c' : Stores) : Type 0 where
  pub stored : c' ≡ record c { definitions = save d c.definitions }

pub define_body-Defined :
    (d : StoreDefinition) (c c' : Stores) → define_body d c ≡ ok (tt, c') → Defined d c c'
unfolding save_store_definition
define_body-Defined d c c' h = record { stored = ground arith }

pub record Put (i : StorePutIntent) (c c' : Stores) : Type 0 where
  pub stored : c' ≡ record c { put_intents = save i c.put_intents }
  pub known : has i.store_name c.definitions ≡ true
  pub not_stored : find i.item_id c.items ≡ none

pub put_body-Put :
    (i j : StorePutIntent) (c c' : Stores) → put_body i c ≡ ok (j, c') → (j ≡ i) × Put i c c'
unfolding save_store_put_intent has
put_body-Put i j c c' h = (
  ground arith,
  record { stored = ground arith; known = ground arith; not_stored = ground arith },
)

pub record Asked (r : StoreGetRequest) (c c' : Stores) : Type 0 where
  pub stored : c' ≡ record c { get_requests = save r c.get_requests }
  pub known : has r.store_name c.definitions ≡ true
  pub not_completed : find r.request_id c.get_results ≡ none

pub get_body-Asked :
    (r s : StoreGetRequest) (c c' : Stores) → get_body r c ≡ ok (s, c') → (s ≡ r) × Asked r c c'
unfolding save_store_get_request has
get_body-Asked r s c c' h = (
  ground arith,
  record { stored = ground arith; known = ground arith; not_completed = ground arith },
)

pub record Accepted (i : StorePutIntent) (item : DurableStoreItem) (c c' : Stores) : Type 0 where
  pub pending : find i.item_id c.put_intents ≡ some i
  pub stored :
      c' ≡ record c { items = save item c.items; put_intents = delete i.item_id c.put_intents }
  pub known : has item.store_name c.definitions ≡ true
  pub same_id : item.item_id ≡ i.item_id

pub commit_put_body-Accepted :
    (i : StorePutIntent) (item : DurableStoreItem) (o : Option DurableStoreItem) (c c' : Stores)
    → make_item i ≡ ok item
    → commit_put_body i item c ≡ ok (o, c')
    → Accepted i item c c'
unfolding save_store_item delete_store_put_intent make_item
commit_put_body-Accepted i item o c c' made h = record {
  pending = ground (arith, same→eq StorePutIntent-discrete (find i.item_id c.put_intents) i);
  stored = ground arith;
  known = ground arith;
  same_id = ground arith;
}

-- A request is given an item.
pub record Given (q : StoreGetRequest) (id : String) (r : StoreGetResult) (c c' : Stores)
    : Type 0 where
  pub pending : find q.request_id c.get_requests ≡ some q
  pub held : (has id c.items || has id c.put_intents) ≡ true
  pub known : has r.store_name c.definitions ≡ true
  pub same_request : r.request_id ≡ q.request_id
  pub stored : c' ≡ record c {
    items = delete id c.items;
    put_intents = delete id c.put_intents;
    get_requests = delete q.request_id c.get_requests;
    get_results = save r c.get_results;
  }

module _ (q : StoreGetRequest) (id : String) (r s : StoreGetResult) (c c' : Stores)
    (same_request : r.request_id ≡ q.request_id)
    (fresh : find q.request_id c.get_requests ≡ some q
      → find r.request_id c.get_results ≡ none) where
  -- A transaction of `commit_get` answers with an earlier result and changes nothing, or gives the
  -- item.
  pub select_body-cases :
      select_body q id r c ≡ ok (s, c')
      → ((c' ≡ c) × (find q.request_id c.get_results ≡ some s)) ⊎ ((s ≡ r) × Given q id r c c')
  unfolding select_body consume_persisted_store_item save_store_get_result delete_store_get_request
  select_body-cases h =
      elim (Bool-cases (same StoreGetRequest-discrete (find q.request_id c.get_requests) q)) [
        | inl open_ ↦
            let pending =
              same→eq StoreGetRequest-discrete (find q.request_id c.get_requests) q open_ in
            let new = fresh pending in
            inr (
              ground arith,
              record {
                pending = pending;
                held = ground arith;
                known = ground arith;
                same_request = same_request;
                stored = ground (arith, delete_if-has id c.items, delete_if-has id c.put_intents);
              },
            )
        | inr gone ↦ inl (ground arith, ground arith)
      ]
