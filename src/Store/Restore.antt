-- ===== src/Store/Restore.antt =====
-- A fresh backend gets back every durable item and every pending operation, once each.
use sose.Prelude.{
  Unique-sorted, ap, pair_leb, str_leb, find-sorted, All, All-of_find, All-sorted, Bool, Bool-cases,
  List, String, Unique, [], arith, eq_iff, find, has, inl, inr, keep, length, length-total, map,
  none, ok, refl, sorted, str_eq, sym, total, total-append, total-map, total-sorted, true, ℕ, ◌++◌,
  ◌+◌, ◌≡◌, ◌∷◌,
}
use sose.Store.Records.{
  DurableStoreItem, StoreDefinition, definition_keyed, item_keyed, put_keyed, request_keyed,
}
use sose.Store.Tables.{
  item_leb, Stores, store_definitions, store_get_requests, store_items, store_put_intents,
}
use sose.Store.Manager.{Call, submit_get_request, submit_put_intent}
use sose.Store.Rebuild.{
  by_priority, by_sequence, pending_leb, create_backend_store, items_in, ordered_items, pending_put,
  pending_request, rebuild_backend, restore_item, restore_pending_operations, restore_store_items,
  submit, validate_rebuild,
}
use sose.Store.Invariant.{Inv}

abbrev pub put_back : DurableStoreItem → Call
put_back i = restore_item i.store_name i

keep-All :
    (test : DurableStoreItem → Bool) (items : List DurableStoreItem)
    → All (λ i. test i ≡ true) items
    → keep test items ≡ items
unfolding keep
keep-All test [] h = refl
keep-All test (i ∷ items) h = ground (arith, h.0, keep-All test items h.1)

module _ (f : Call → ℕ) where
  keep_nothing :
      (items : List DurableStoreItem)
      → total (λ i. f (put_back i)) (keep (λ i. has {V = StoreDefinition} i.store_name []) items)
        ≡ 0
  unfolding total keep has find
  keep_nothing [] = refl
  keep_nothing (i ∷ items) = keep_nothing items

  restored_in :
      (name : String) (items : List DurableStoreItem)
      → total (λ i. f (restore_item name i)) (items_in name items)
        ≡ total (λ i. f (put_back i)) (items_in name items)
  unfolding total keep
  restored_in name [] = refl
  restored_in name (i ∷ items) = elim (Bool-cases (str_eq i.store_name name)) [
    | inl here ↦ ground (arith, here, eq_iff i.store_name name, restored_in name items)
    | inr other ↦ ground (arith, other, restored_in name items)
  ]

  total-ordered :
      (g : DurableStoreItem → ℕ) (d : StoreDefinition) (items : List DurableStoreItem)
      → total g (ordered_items d items) ≡ total g items
  unfolding ordered_items
  total-ordered g d items =
      ground (arith, total-sorted by_priority g items, total-sorted by_sequence g items)

  -- The items of a first store, and those of the others.
  split_first :
      (d : StoreDefinition) (ds : List StoreDefinition) (items : List DurableStoreItem)
      → find d.name ds ≡ none
      → total (λ i. f (put_back i)) (keep (λ i. has i.store_name (d ∷ ds)) items)
        ≡ total (λ i. f (put_back i)) (items_in d.name items)
          + total (λ i. f (put_back i)) (keep (λ i. has i.store_name ds) items)
  unfolding total keep has find
  split_first d ds [] new = refl
  split_first d ds (i ∷ items) new = elim (Bool-cases (str_eq i.store_name d.name)) [
    | inl here ↦ ground (
      arith,
      here,
      new,
      eq_iff i.store_name d.name,
      eq_iff d.name i.store_name,
      split_first d ds items new,
    )
    | inr other ↦ ground (
      arith,
      other,
      eq_iff i.store_name d.name,
      eq_iff d.name i.store_name,
      split_first d ds items new,
    )
  ]

  total-restored :
      (ds : List StoreDefinition) (c : Stores)
      → Unique ds
      → total f (restore_store_items ds c)
        ≡ total (λ i. f (put_back i)) (keep (λ i. has i.store_name ds) (store_items c))
  unfolding restore_store_items total
  total-restored [] c u = sym (keep_nothing (store_items c))
  total-restored (d ∷ ds) c u = omega (
    arith,
    total-append f (map (restore_item d.name) (ordered_items d (items_in d.name (store_items c))))
        (restore_store_items ds c),
    total-map f (restore_item d.name) (ordered_items d (items_in d.name (store_items c))),
    total-ordered (λ i. f (restore_item d.name i)) d (items_in d.name (store_items c)),
    restored_in d.name (store_items c),
    split_first d ds (store_items c) u.0,
    total-restored ds c u.1,
  )

  total-pending :
      (c : Stores)
      → total f (restore_pending_operations c)
        ≡ total (λ i. f (submit_put_intent i)) c.put_intents
          + total (λ r. f (submit_get_request r)) c.get_requests
  unfolding restore_pending_operations store_put_intents store_get_requests
  total-pending c = omega (
    arith,
    total-map f submit (
        sorted pending_leb
          (map pending_put (store_put_intents c) ++ map pending_request (store_get_requests c))),
    total-sorted pending_leb (λ p. f (submit p))
        (map pending_put (store_put_intents c) ++ map pending_request (store_get_requests c)),
    total-append (λ p. f (submit p)) (map pending_put (store_put_intents c))
        (map pending_request (store_get_requests c)),
    total-map (λ p. f (submit p)) pending_put (store_put_intents c),
    total-map (λ p. f (submit p)) pending_request (store_get_requests c),
    total-sorted (λ a b. pair_leb a.sequence a.item_id b.sequence b.item_id)
        (λ i. f (submit_put_intent i)) c.put_intents,
    total-sorted (λ a b. pair_leb a.sequence a.request_id b.sequence b.request_id)
        (λ r. f (submit_get_request r)) c.get_requests,
  )

module _ (c : Stores) (v : Inv c) where
  items_defined : keep (λ i. has i.store_name (store_definitions c)) (store_items c) ≡ store_items c
  unfolding store_items store_definitions has
  items_defined = keep-All _ _ (
      All-sorted _ _ c.items (
        All-of_find _ c.items v.unique_items λ id i e. ground (
          arith,
          find-sorted (λ a b. str_leb a.name b.name) i.store_name c.definitions
              v.unique_definitions,
          v.item_known id i e,
        )))

  definitions_distinct : Unique (store_definitions c)
  unfolding store_definitions
  definitions_distinct =
      Unique-sorted (λ a b. str_leb a.name b.name) c.definitions v.unique_definitions

  total-all_restored :
      (f : Call → ℕ)
      → total f (restore_store_items (store_definitions c) c ++ restore_pending_operations c)
        ≡ total (λ i. f (put_back i)) c.items
          + total (λ i. f (submit_put_intent i)) c.put_intents
          + total (λ r. f (submit_get_request r)) c.get_requests
  unfolding store_items
  total-all_restored f = omega (
    arith,
    total-append f (restore_store_items (store_definitions c) c) (restore_pending_operations c),
    total-restored f (store_definitions c) c definitions_distinct,
    ap (total (λ i. f (put_back i))) items_defined,
    total-sorted item_leb (λ i. f (put_back i)) c.items,
    total-pending f c,
  )

  -- In tables that meet the invariant, where validation passes, the rebuild creates each defined
  -- store once and then makes exactly the calls that put each durable item back, that submit each
  -- pending put and that submit each pending get, each once whatever a count `f` of calls says; and
  -- it returns their number.
  pub rebuild_restores :
      (filters : String → Bool)
      → validate_rebuild filters c ≡ ok tt
      → (calls : List Call) × (rebuild_backend filters c
          ≡ ok (
            map create_backend_store (store_definitions c) ++ calls,
            length c.items + length c.put_intents + length c.get_requests,
          ))
        × ((f : Call → ℕ)
            → total f calls
              ≡ total (λ i. f (put_back i)) c.items
                + total (λ i. f (submit_put_intent i)) c.put_intents
                + total (λ r. f (submit_get_request r)) c.get_requests)
  unfolding rebuild_backend
  rebuild_restores filters valid =
      let items = restore_store_items (store_definitions c) c in
      let pending = restore_pending_operations c in
      let count : length items + length pending
          ≡ length c.items + length c.put_intents + length c.get_requests =
        omega (
          arith,
          length-total items,
          length-total pending,
          total-append (λ x. 1) items pending,
          total-all_restored (λ x. 1),
          length-total c.items,
          length-total c.put_intents,
          length-total c.get_requests,
        ) in
      (items ++ pending, rw (valid, count) refl, total-all_restored)
