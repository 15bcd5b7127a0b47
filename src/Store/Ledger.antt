-- ===== src/Store/Ledger.antt =====
-- Counting an item: whether it is held, stored or pending, and how often it was given out.
use sose.Prelude.{
  refl, String, arith, eq_iff, find, find-delete, find-save, has, if◌then◌else◌, none, str_eq,
  total, total-save, ℕ, ◌+◌, ◌≡◌, ◌||◌,
}
use sose.Store.Records.{
  DurableStoreItem, StoreDefinition, StoreGetRequest, StoreGetResult, StorePutIntent,
  definition_keyed, item_keyed, put_keyed, request_keyed, result_keyed,
}
use sose.Store.Tables.{Stores}
use sose.Store.Moves.{Accepted, Asked, Defined, Given, Put}
use sose.Store.Invariant.{Inv}

-- 1 where the item is stored or pending, else 0.
unfoldable pub held : String → Stores → ℕ
held id c = if has id c.items || has id c.put_intents then 1 else 0

abbrev pub of_item : String → StoreGetResult → ℕ
of_item id r = if str_eq r.item.item_id id then 1 else 0

-- The number of results that gave the item out.
unfoldable pub consumed : String → Stores → ℕ
consumed id c = total (of_item id) c.get_results

abbrev pub counted : String → Stores → ℕ
counted id c = consumed id c + held id c

pub Put-counted :
    (id : String) (i : StorePutIntent) (c c' : Stores)
    → Put i c c'
    → counted id c' ≡ consumed id c + (if str_eq i.item_id id then 1 else held id c)
unfolding held consumed has
Put-counted id i c c' q = ground (arith, q.stored, find-save id i c.put_intents)

pub Accepted-counted :
    (id : String) (i : StorePutIntent) (item : DurableStoreItem) (c c' : Stores)
    → Accepted i item c c'
    → counted id c' ≡ counted id c
unfolding held consumed has
Accepted-counted id i item c c' q = ground (
  arith,
  q.stored,
  q.same_id,
  q.pending,
  find-save id item c.items,
  find-delete id i.item_id c.put_intents,
  eq_iff item.item_id id,
  eq_iff i.item_id id,
)

pub Given-counted :
    (id key : String) (q : StoreGetRequest) (r : StoreGetResult) (c c' : Stores)
    → Inv c
    → r.item.item_id ≡ key
    → Given q key r c c'
    → counted id c' ≡ counted id c
unfolding held consumed has
Given-counted id key q r c c' v same g =
    let fresh : find r.request_id c.get_results ≡ none =
      rw g.same_request (v.disjoint q.request_id q g.pending) in
    ground (
      arith,
      g.stored,
      g.held,
      same,
      total-save (of_item id) r c.get_results fresh,
      find-delete id key c.items,
      find-delete id key c.put_intents,
      eq_iff key id,
      eq_iff r.item.item_id id,
    )

pub Defined-counted :
    (id : String) (d : StoreDefinition) (c c' : Stores)
    → Defined d c c'
    → counted id c' ≡ counted id c
unfolding held consumed
Defined-counted id d c c' q = rw q.stored refl

pub Asked-counted :
    (id : String) (r : StoreGetRequest) (c c' : Stores)
    → Asked r c c'
    → counted id c' ≡ counted id c
unfolding held consumed
Asked-counted id r c c' q = rw q.stored refl
