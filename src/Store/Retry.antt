-- ===== src/Store/Retry.antt =====
-- core/stores.py: what `ensure_put` finds and does, case by case, and how it counts an item.
use sose.Prelude.{
  Bool, Error, List, Option, Option-cases, Result, String, [], arith, err, false, find-sorted, has,
  inl, inr, none, not, ok, pair_leb, raise_if, refl, some, str_eq, total, total-sorted, true,
  value_error, ℕ, ◌&&◌, ◌==◌, ◌||◌, ◌≡◌, ◌≤◌, ◌∷◌,
}
use sose.Store.Records.{DurableStoreItem, StoreGetResult, StorePutIntent, item_keyed, put_keyed}
use sose.Store.Tables.{Stores, item_leb, store_get_results, store_items, store_put_intents}
use sose.Store.Manager.{item_with_id, pending_put_intent}
use sose.Store.Ensure.{
  answered, assert_store_item_identity, consumed_in, consumed_item_with_id,
  ensure_pending_put_intent, ensure_put, existing_item, put_ran,
}
use sose.Store.Moves.{Put}
use sose.Store.Invariant.{Inv}
use sose.Store.Ledger.{consumed, counted, held, of_item}
use sose.Store.Paths.{put_cases}

stored_counted :
    (id : String) (i : DurableStoreItem) (c : Stores)
    → Inv c
    → item_with_id c id ≡ some i
    → 1 ≤ counted id c
unfolding item_with_id store_items held has
stored_counted id i c v e = ground (arith, e, find-sorted item_leb id c.items v.unique_items)

pending_counted :
    (id : String) (p : StorePutIntent) (c : Stores)
    → Inv c
    → pending_put_intent c id ≡ some p
    → 1 ≤ counted id c
unfolding pending_put_intent store_put_intents held has
pending_counted id p c v e = ground (
  arith,
  e,
  find-sorted (λ a b. pair_leb a.sequence a.item_id b.sequence b.item_id) id c.put_intents
      v.unique_puts,
)

consumed_in-some :
    (id : String) (rs : List StoreGetResult) (i : DurableStoreItem)
    → consumed_in id rs ≡ some i
    → 1 ≤ total (of_item id) rs
unfolding consumed_in total
consumed_in-some id [] i e = cc
consumed_in-some id (r ∷ rs) i e = ground (arith, e, consumed_in-some id rs i)

consumed_in-none :
    (id : String) (rs : List StoreGetResult) → consumed_in id rs ≡ none → total (of_item id) rs ≡ 0
unfolding consumed_in total
consumed_in-none id [] e = refl
consumed_in-none id (r ∷ rs) e = ground (arith, e, consumed_in-none id rs)

given_counted :
    (id : String) (i : DurableStoreItem) (c : Stores)
    → consumed_item_with_id c id ≡ some i
    → 1 ≤ counted id c
unfolding consumed_item_with_id consumed store_get_results
given_counted id i c e = omega (
  arith,
  consumed_in-some id (store_get_results c) i e,
  total-sorted (λ (a : StoreGetResult) b. pair_leb a.sequence a.request_id b.sequence b.request_id)
      (of_item id) c.get_results,
)

never_given : (id : String) (c : Stores) → consumed_item_with_id c id ≡ none → consumed id c ≡ 0
unfolding consumed_item_with_id consumed store_get_results
never_given id c e = omega (
  arith,
  consumed_in-none id (store_get_results c) e,
  total-sorted (λ (a : StoreGetResult) b. pair_leb a.sequence a.request_id b.sequence b.request_id)
      (of_item id) c.get_results,
)

-- `ensure_put` raises, finds the item stored, given out or pending, or submits it.
module _ {ℓ} (ran : Stores → Stores) (store_name item_id value : String) (at prio : ℕ) (c : Stores)
    (v : Inv c) (P : Result (Option DurableStoreItem) × Stores → Type ℓ)
    (raised : (e : Error) → P (err e, c))
    (kept : (i : DurableStoreItem) → 1 ≤ counted item_id c → P (ok (some i), c))
    (waits : 1 ≤ counted item_id c → P (put_ran ran item_id (ok tt, c)))
    (submitted : (i : StorePutIntent) (c' : Stores)
      → i.item_id ≡ item_id
      → consumed item_id c ≡ 0
      → Put i c c'
      → P (put_ran ran item_id (ok tt, c'))) where
  existing_item-cases :
      (i : DurableStoreItem) → 1 ≤ counted item_id c → P (existing_item i store_name value c)
  unfolding assert_store_item_identity
  existing_item-cases i there = from (str_eq i.store_name store_name) (str_eq i.value value)
    where
      from :
          (a b : Bool)
          → P (elim (raise_if (not (a && b)) (value_error "store item identity conflict")) [
            | err e ↦ (err e, c)
            | ok _ ↦ (ok (some i), c)
          ])
      from true true = kept i there
      from true false = raised _
      from false b = raised _

  ensure_pending-cases :
      consumed item_id c ≡ 0
      → P (put_ran ran item_id (ensure_pending_put_intent store_name item_id value at prio c))
  unfolding ensure_pending_put_intent
  ensure_pending-cases new = elim (Option-cases (pending_put_intent c item_id)) [
    | inr (p, e) ↦
        rw (e, ensure_pending_put_intent)
          (from
            (not (str_eq p.store_name store_name)
              || not (str_eq p.value value)
              || not (p.priority == prio))
            (pending_counted item_id p c v e))
    | inl none_waits ↦
        rw (none_waits, ensure_pending_put_intent)
          (put_cases (λ o. P (put_ran ran item_id (answered o))) c store_name item_id value at prio
            c raised (λ i call c' same q. submitted i c' same new q))
  ]
    where
      from :
          (b : Bool)
          → 1 ≤ counted item_id c
          → P (put_ran ran item_id (raise_if b (value_error "store item identity conflict"), c))
      from true there = raised _
      from false there = waits there

  pub ensure_put-cases : P (ensure_put ran store_name item_id value at prio c)
  unfolding ensure_put
  ensure_put-cases = elim (Option-cases (item_with_id c item_id)) [
    | inr (i, e) ↦ rw (e, ensure_put) (existing_item-cases i (stored_counted item_id i c v e))
    | inl new ↦ elim (Option-cases (consumed_item_with_id c item_id)) [
      | inr (i, e) ↦ rw (new, e, ensure_put) (existing_item-cases i (given_counted item_id i c e))
      | inl unused ↦
          rw (new, unused, ensure_put) (ensure_pending-cases (never_given item_id c unused))
    ]
  ]
