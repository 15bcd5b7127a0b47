-- ===== src/Store/Invariant.antt =====
-- The invariant of the store tables, which each transaction keeps.
use sose.Prelude.{
  List, String, Unique, Unique-delete, Unique-save, arith, eq_iff, find, find-delete, find-save,
  has, none, save, some, true, ◌≡◌,
}
use sose.Store.Records.{
  DurableStoreItem, StoreDefinition, StoreGetRequest, StoreGetResult, StorePutIntent,
  definition_keyed, item_keyed, put_keyed, request_keyed, result_keyed,
}
use sose.Store.Tables.{Stores, empty}
use sose.Store.Moves.{Accepted, Asked, Defined, Given, Put}

-- Identities are distinct; no item is both pending and stored, and no request both pending and
-- completed; every row names a defined store; and a result's item is of the result's store.
pub record Inv (c : Stores) : Type 0 where
  pub unique_definitions : Unique c.definitions
  pub unique_items : Unique c.items
  pub unique_puts : Unique c.put_intents
  pub unique_requests : Unique c.get_requests
  pub unique_results : Unique c.get_results
  pub apart :
      (id : String) (i : DurableStoreItem) → find id c.items ≡ some i → find id c.put_intents ≡ none
  pub disjoint :
      (id : String) (q : StoreGetRequest)
      → find id c.get_requests ≡ some q
      → find id c.get_results ≡ none
  pub item_known :
      (id : String) (i : DurableStoreItem)
      → find id c.items ≡ some i
      → has i.store_name c.definitions ≡ true
  pub put_known :
      (id : String) (i : StorePutIntent)
      → find id c.put_intents ≡ some i
      → has i.store_name c.definitions ≡ true
  pub request_known :
      (id : String) (q : StoreGetRequest)
      → find id c.get_requests ≡ some q
      → has q.store_name c.definitions ≡ true
  pub result_known :
      (id : String) (r : StoreGetResult)
      → find id c.get_results ≡ some r
      → (has r.store_name c.definitions ≡ true) × (r.item.store_name ≡ r.store_name)

pub empty-Inv : Inv empty
unfolding find
empty-Inv = record {
  unique_definitions = tt;
  unique_items = tt;
  unique_puts = tt;
  unique_requests = tt;
  unique_results = tt;
  apart = λ id i e. cc;
  disjoint = λ id q e. cc;
  item_known = λ id i e. cc;
  put_known = λ id i e. cc;
  request_known = λ id q e. cc;
  result_known = λ id r e. cc;
}

-- A defined store stays defined.
has-save_definition :
    (name : String) (d : StoreDefinition) (rows : List StoreDefinition)
    → has name rows ≡ true
    → has name (save d rows) ≡ true
unfolding has
has-save_definition name d rows h = ground (arith, find-save name d rows)

pub Defined-Inv : (d : StoreDefinition) (c c' : Stores) → Inv c → Defined d c c' → Inv c'
Defined-Inv d c c' v q = rw q.stored (record {
  unique_definitions = Unique-save d c.definitions v.unique_definitions;
  unique_items = v.unique_items;
  unique_puts = v.unique_puts;
  unique_requests = v.unique_requests;
  unique_results = v.unique_results;
  apart = v.apart;
  disjoint = v.disjoint;
  item_known = λ id i e. has-save_definition i.store_name d c.definitions (v.item_known id i e);
  put_known = λ id i e. has-save_definition i.store_name d c.definitions (v.put_known id i e);
  request_known =
      λ id i e. has-save_definition i.store_name d c.definitions (v.request_known id i e);
  result_known = λ id r e.
      let (known, own) = v.result_known id r e in
      (has-save_definition r.store_name d c.definitions known, own);
})

pub Put-Inv : (i : StorePutIntent) (c c' : Stores) → Inv c → Put i c c' → Inv c'
Put-Inv i c c' v q = rw q.stored (record {
  unique_definitions = v.unique_definitions;
  unique_items = v.unique_items;
  unique_puts = Unique-save i c.put_intents v.unique_puts;
  unique_requests = v.unique_requests;
  unique_results = v.unique_results;
  apart = λ id j e.
      ground (arith, find-save id i c.put_intents, eq_iff i.item_id id, q.not_stored, v.apart id j);
  disjoint = v.disjoint;
  item_known = v.item_known;
  put_known = λ id j e. ground (arith, find-save id i c.put_intents, q.known, v.put_known id j);
  request_known = v.request_known;
  result_known = v.result_known;
})

pub Asked-Inv : (r : StoreGetRequest) (c c' : Stores) → Inv c → Asked r c c' → Inv c'
Asked-Inv r c c' v q = rw q.stored (record {
  unique_definitions = v.unique_definitions;
  unique_items = v.unique_items;
  unique_puts = v.unique_puts;
  unique_requests = Unique-save r c.get_requests v.unique_requests;
  unique_results = v.unique_results;
  apart = v.apart;
  disjoint = λ id s e. ground (
    arith,
    find-save id r c.get_requests,
    eq_iff r.request_id id,
    q.not_completed,
    v.disjoint id s,
  );
  item_known = v.item_known;
  put_known = v.put_known;
  request_known =
      λ id s e. ground (arith, find-save id r c.get_requests, q.known, v.request_known id s);
  result_known = v.result_known;
})

pub Accepted-Inv :
    (i : StorePutIntent) (item : DurableStoreItem) (c c' : Stores)
    → Inv c
    → Accepted i item c c'
    → Inv c'
Accepted-Inv i item c c' v q = rw q.stored (record {
  unique_definitions = v.unique_definitions;
  unique_items = Unique-save item c.items v.unique_items;
  unique_puts = Unique-delete i.item_id c.put_intents v.unique_puts;
  unique_requests = v.unique_requests;
  unique_results = v.unique_results;
  apart = λ id j e. ground (
    arith,
    find-save id item c.items,
    find-delete id i.item_id c.put_intents,
    eq_iff item.item_id id,
    eq_iff i.item_id id,
    q.same_id,
    v.apart id j,
  );
  disjoint = v.disjoint;
  item_known = λ id j e. ground (arith, find-save id item c.items, q.known, v.item_known id j);
  put_known = λ id j e. ground (arith, find-delete id i.item_id c.put_intents, v.put_known id j);
  request_known = v.request_known;
  result_known = v.result_known;
})

pub Given-Inv :
    (q : StoreGetRequest) (id : String) (r : StoreGetResult) (c c' : Stores)
    → Inv c
    → r.item.store_name ≡ r.store_name
    → Given q id r c c'
    → Inv c'
Given-Inv q id r c c' v own g = rw g.stored (record {
  unique_definitions = v.unique_definitions;
  unique_items = Unique-delete id c.items v.unique_items;
  unique_puts = Unique-delete id c.put_intents v.unique_puts;
  unique_requests = Unique-delete q.request_id c.get_requests v.unique_requests;
  unique_results = Unique-save r c.get_results v.unique_results;
  apart = λ k j e.
      ground (arith, find-delete k id c.items, find-delete k id c.put_intents, v.apart k j);
  disjoint = λ k s e. ground (
    arith,
    find-delete k q.request_id c.get_requests,
    find-save k r c.get_results,
    eq_iff q.request_id k,
    eq_iff r.request_id k,
    g.same_request,
    v.disjoint k s,
  );
  item_known = λ k j e. ground (arith, find-delete k id c.items, v.item_known k j);
  put_known = λ k j e. ground (arith, find-delete k id c.put_intents, v.put_known k j);
  request_known =
      λ k j e. ground (arith, find-delete k q.request_id c.get_requests, v.request_known k j);
  result_known = λ k s e. (
    ground (arith, find-save k r c.get_results, g.known, v.result_known k s),
    ground (arith, find-save k r c.get_results, own, v.result_known k s),
  );
})
