-- ===== src/Store/Ensure.antt =====
-- core/stores.py: the methods that compose the others, for one worker. `ran` is what the backend
-- does to the tables when it runs until its own time.
use sose.Prelude.{
  Bool, List, Option, Result, String, [], err, if◌then◌else◌, none, not, ok, raise_if,
  runtime_error, some, str_eq, value_error, ℕ, ◌&&◌, ◌==◌, ◌||◌, ◌∷◌,
}
use sose.Store.Records.{DurableStoreItem, StoreGetResult, item_keyed, put_keyed}
use sose.Store.Tables.{Stores, store_get_results}
use sose.Store.Manager.{Call, get, item_with_id, pending_get, pending_put_intent, put, selection}

-- The item of the first result that gave it out.
unfoldable pub consumed_in : String → List StoreGetResult → Option DurableStoreItem
consumed_in item_id [] = none
consumed_in item_id (r ∷ results) =
    if str_eq r.item.item_id item_id then some r.item else consumed_in item_id results

unfoldable pub consumed_item_with_id : Stores → String → Option DurableStoreItem
unfolding consumed_in
consumed_item_with_id c item_id = consumed_in item_id (store_get_results c)

unfoldable pub assert_store_item_identity : DurableStoreItem → String → String → Result (Unit {0})
assert_store_item_identity item store_name value =
    raise_if (not (str_eq item.store_name store_name && str_eq item.value value))
      (value_error "store item identity conflict")

abbrev pub existing_item :
    DurableStoreItem → String → String → Stores → Result (Option DurableStoreItem) × Stores
existing_item item store_name value c = elim (assert_store_item_identity item store_name value) [
  | err e ↦ (err e, c)
  | ok _ ↦ (ok (some item), c)
]

abbrev pub answered : {A : Type 0} → Result (A × Call) × Stores → Result (Unit {0}) × Stores
answered (ok _, c) = (ok tt, c)
answered (err e, c) = (err e, c)

-- `_ensure_pending_put_intent`
unfoldable pub ensure_pending_put_intent :
    String → String → String → ℕ → ℕ → Stores → Result (Unit {0}) × Stores
unfolding put
ensure_pending_put_intent store_name item_id value requested_at prio c =
    elim (pending_put_intent c item_id) [
      | none ↦ answered (put c store_name item_id value requested_at prio c)
      | some pending ↦ (
        raise_if
            (not (str_eq pending.store_name store_name)
              || not (str_eq pending.value value)
              || not (pending.priority == prio))
            (value_error "store item identity conflict"),
        c,
      )
    ]

module _ (ran : Stores → Stores) where
  abbrev pub put_ran :
      String → Result (Unit {0}) × Stores → Result (Option DurableStoreItem) × Stores
  put_ran item_id (err e, c) = (err e, c)
  put_ran item_id (ok _, c) = (ok (item_with_id (ran c) item_id), ran c)

  unfoldable pub ensure_put :
      String → String → String → ℕ → ℕ → Stores → Result (Option DurableStoreItem) × Stores
  unfolding assert_store_item_identity consumed_item_with_id ensure_pending_put_intent
  ensure_put store_name item_id value requested_at prio c = elim (item_with_id c item_id) [
    | some existing ↦ existing_item existing store_name value c
    | none ↦ elim (consumed_item_with_id c item_id) [
      | some consumed ↦ existing_item consumed store_name value c
      | none ↦
          put_ran item_id (ensure_pending_put_intent store_name item_id value requested_at prio c)
    ]
  ]

  abbrev selection_ran :
      String → Result (Unit {0}) × Stores → Result (Option StoreGetResult) × Stores
  selection_ran request_id (err e, c) = (err e, c)
  selection_ran request_id (ok _, c) = (ok (selection (ran c) request_id), ran c)

  abbrev existing_selection :
      StoreGetResult → String → Stores → Result (Option StoreGetResult) × Stores
  existing_selection r store_name c =
      if not (str_eq r.store_name store_name)
      then (err (runtime_error "selection belongs to another store"), c)
      else (ok (some r), c)

  abbrev same_key : Option String → Option String → Bool
  same_key none none = Bool.true
  same_key (some a) (some b) = str_eq a b
  same_key _ _ = Bool.false

  unfoldable pub ensure_selection :
      (String → Bool)
      → String
      → String
      → ℕ
      → Option String
      → Stores
      → Result (Option StoreGetResult) × Stores
  unfolding get
  ensure_selection filters store_name request_id requested_at filter_key c =
      elim (selection c request_id) [
        | some existing ↦ existing_selection existing store_name c
        | none ↦ selection_ran request_id (elim (pending_get c request_id) [
          | some pending ↦ (
            raise_if
                (not (str_eq pending.store_name store_name)
                  || not (same_key pending.filter_key filter_key))
                (runtime_error "pending selection does not match requested store/filter"),
            c,
          )
          | none ↦ answered (get filters c store_name request_id requested_at filter_key c)
        ])
      ]
