-- ===== src/Store/Paths.antt =====
-- The paths of each method: it raises and changes nothing, it answers with what is there, or it does
-- one of the moves.
use sose.Prelude.{
  raise_if, not, str_eq, refl, eq_iff, Bool, Error, Option, Option-cases, Result, String, arith,
  bind-eq-ok, err, find, find-key, none, ok, or_raise, plan_cases, some, transaction,
  transaction_cases, inl, inr, ℕ, ◌≡◌,
}
use sose.Store.Records.{
  DurableStoreItem, StoreDefinition, StoreGetRequest, StoreGetResult, StorePutIntent,
  definition_keyed, item_keyed, make_item, make_put, make_result, put_keyed, request_keyed,
  result_keyed,
}
use sose.Store.Tables.{Stores, check_commit, store_get_requests, store_items, store_put_intents}
use sose.Store.Manager.{
  Call, commit_put, commit_put_body, commit_put_new, define, define_body, get, get_body,
  get_submitted, item_with_id, pending_get, pending_put_intent, plan_get, plan_put, put, put_body,
  put_submitted, selection,
}
use sose.Store.Select.{
  BackendItem, Choice, carry_out, choose, commit_get, consume_store_item, given, give, select_body,
  winner,
}
use sose.Store.Moves.{
  Accepted, Asked, Defined, Given, Put, commit_put_body-Accepted, define_body-Defined,
  get_body-Asked, put_body-Put, select_body-cases,
}

pub define_cases {ℓ} :
    (P : Result (Unit {0}) × Stores → Type ℓ) (d : StoreDefinition) (c : Stores)
    → ((e : Error) → P (err e, c))
    → ((c' : Stores) → Defined d c c' → P (ok tt, c'))
    → P (define d c)
unfolding define
define_cases P d c raised stored =
    transaction_cases P check_commit c (define_body d) raised
      λ _ c' body _. stored c' (define_body-Defined d c c' body)

plan_put-item :
    (seen : Stores) (store_name item_id value : String) (at prio : ℕ) (i : StorePutIntent)
    → plan_put seen store_name item_id value at prio ≡ ok i
    → i.item_id ≡ item_id
unfolding plan_put make_put
plan_put-item seen store_name item_id value at prio i h = ground (arith, h)

pub put_cases {ℓ} :
    (P : Result (StorePutIntent × Call) × Stores → Type ℓ) (seen : Stores)
    (store_name item_id value : String) (at prio : ℕ) (c : Stores)
    → ((e : Error) → P (err e, c))
    → ((i : StorePutIntent) (call : Call) (c' : Stores)
        → i.item_id ≡ item_id
        → Put i c c'
        → P (ok (i, call), c'))
    → P (put seen store_name item_id value at prio c)
unfolding put
put_cases P seen store_name item_id value at prio c raised stored =
    plan_cases P (plan_put seen store_name item_id value at prio) (λ e. (err e, c))
      (λ i. put_submitted (transaction check_commit (put_body i) c)) raised
      λ i planned.
        transaction_cases (λ o. P (put_submitted o)) check_commit c (put_body i) raised
          λ j c' body _.
            let (same, move) = put_body-Put i j c c' body in
            rw same
              (stored i _ c' (plan_put-item seen store_name item_id value at prio i planned) move)

pub get_cases {ℓ} :
    (P : Result (StoreGetRequest × Call) × Stores → Type ℓ) (filters : String → Bool)
    (seen : Stores) (store_name id : String) (at : ℕ) (key : Option String) (c : Stores)
    → ((e : Error) → P (err e, c))
    → ((r : StoreGetRequest) (call : Call) (c' : Stores) → Asked r c c' → P (ok (r, call), c'))
    → P (get filters seen store_name id at key c)
unfolding get
get_cases P filters seen store_name id at key c raised stored =
    plan_cases P (plan_get filters seen store_name id at key) (λ e. (err e, c))
      (λ r. get_submitted (transaction check_commit (get_body r) c)) raised
      λ r planned.
        transaction_cases (λ o. P (get_submitted o)) check_commit c (get_body r) raised
          λ s c' body _.
            let (same, move) = get_body-Asked r s c c' body in rw same (stored r _ c' move)

-- `commit_put`
module _ {ℓ} (P : Result (Option DurableStoreItem) × Stores → Type ℓ) (c : Stores)
    (raised : (e : Error) → P (err e, c)) (kept : (o : Option DurableStoreItem) → P (ok o, c))
    (accepted : (i : StorePutIntent) (item : DurableStoreItem) (o : Option DurableStoreItem)
        (c' : Stores)
      → Accepted i item c c'
      → P (ok o, c')) where
  commit_put_new-cases : (o : Option StorePutIntent) → P (commit_put_new o c)
  commit_put_new-cases none = kept none
  commit_put_new-cases (some i) =
      plan_cases P (make_item i) (λ e. (err e, c))
        (λ item. transaction check_commit (commit_put_body i item) c) raised
        λ item made.
          transaction_cases P check_commit c (commit_put_body i item) raised
            λ o c' body _. accepted i item o c' (commit_put_body-Accepted i item o c c' made body)

  pub commit_put_cases : (seen : Stores) (item_id : String) → P (commit_put seen item_id c)
  unfolding commit_put
  commit_put_cases seen item_id = elim (Option-cases (item_with_id seen item_id)) [
    | inl new ↦ rw (new, commit_put) (commit_put_new-cases (pending_put_intent seen item_id))
    | inr (i, e) ↦ rw (e, commit_put) (kept (some i))
  ]

-- What `commit_get` gives: the chosen item, to the request that it was called for.
pub record IsGift (id : String) (b : BackendItem) (q : StoreGetRequest) (r : StoreGetResult)
    : Type 0 where
  pub same_id : q.request_id ≡ id
  pub same_request : r.request_id ≡ q.request_id
  pub same_item : r.item.item_id ≡ b.item_id
  pub own : r.item.store_name ≡ r.store_name

make_result-ok :
    (q : StoreGetRequest) (item : DurableStoreItem) (at : ℕ) (r : StoreGetResult)
    → make_result q item at ≡ ok r
    → (r.request_id ≡ q.request_id) × (r.item ≡ item) × (r.item.store_name ≡ r.store_name)
unfolding make_result
make_result-ok q item at r h =
    (ground arith, ground arith, ground (arith, eq_iff item.store_name q.store_name))

consume-id :
    (stored : Option DurableStoreItem) (pending : Option StorePutIntent) (id : String)
    (item : DurableStoreItem)
    → ((x : DurableStoreItem) → stored ≡ some x → x.item_id ≡ id)
    → ((x : StorePutIntent) → pending ≡ some x → x.item_id ≡ id)
    → consume_store_item stored pending ≡ ok (some item)
    → item.item_id ≡ id
unfolding consume_store_item make_item
consume-id (some x) pending id item named waiting h = ground (arith, named x refl, h)
consume-id none none id item named waiting h = ground (arith, h)
consume-id none (some x) id item named waiting h = ground (arith, waiting x refl, h)

consume_store_item-ok :
    (seen : Stores) (id : String) (item : DurableStoreItem)
    → consume_store_item (item_with_id seen id) (pending_put_intent seen id) ≡ ok (some item)
    → item.item_id ≡ id
unfolding item_with_id pending_put_intent
consume_store_item-ok seen id item h =
    consume-id _ _ id item (λ x e. find-key id (store_items seen) x e)
      (λ x e. find-key id (store_put_intents seen) x e) h

given-give :
    (again : Stores) (q q' : StoreGetRequest) (at : ℕ) (o : Option DurableStoreItem)
    (r : StoreGetResult)
    → given again q at o ≡ ok (give q' r)
    → (q' ≡ q) × (item : DurableStoreItem) × (o ≡ some item) × (make_result q item at ≡ ok r)
given-give again q q' at none r h =
    let (x, e, f) = bind-eq-ok (or_raise (selection again q.request_id) _) _ h in absurd cc
given-give again q q' at (some item) r h =
    let (x, e, f) = bind-eq-ok (make_result q item at) _ h in (cc, item, refl, cc)

choose-give :
    (seen again : Stores) (id : String) (b : BackendItem) (at : ℕ) (q : StoreGetRequest)
    (r : StoreGetResult)
    → choose seen again id b at ≡ ok (give q r)
    → IsGift id b q r
unfolding choose pending_get
choose-give seen again id b at q r h =
    let (q', asked, rest) = bind-eq-ok (or_raise (pending_get seen id) _) _ h in
    let (_, right, rest') =
      bind-eq-ok (raise_if (not (str_eq b.store_name q'.store_name)) _) _ rest in
    let (o, consumed, last) =
      bind-eq-ok
        (consume_store_item (item_with_id seen b.item_id) (pending_put_intent seen b.item_id)) _
        rest' in
    let (same_q, item, some_item, made) = given-give again q' q at o r last in
    let (ids, items, own) = make_result-ok q' item at r made in
    let found = consume_store_item-ok seen b.item_id item cc in
    let named : q'.request_id ≡ id =
      ground (arith, asked, find-key id (store_get_requests seen) q') in
    record { same_id = cc; same_request = cc; same_item = cc; own = own }

-- `commit_get` answers with a result that it has read or that another worker has stored, it raises,
-- or it gives the chosen item to its request.
module _ {ℓ} (P : Result StoreGetResult × Stores → Type ℓ) (seen again : Stores) (id : String)
    (b : BackendItem) (at : ℕ) (c : Stores) where
  pub commit_get_cases :
      ((k : String) (q : StoreGetRequest)
        → find k c.get_requests ≡ some q
        → find k c.get_results ≡ none)
      → ((e : Error) → P (err e, c))
      → ((r : StoreGetResult) → P (ok r, c))
      → ((q : StoreGetRequest) (r : StoreGetResult) (c' : Stores)
          → IsGift id b q r
          → Given q b.item_id r c c'
          → P (ok r, c'))
      → P (commit_get seen again id b at c)
  unfolding commit_get
  commit_get_cases disjoint raised kept given_to = elim (Option-cases (selection seen id)) [
    | inl new ↦
        rw (new, commit_get)
          (plan_cases P (choose seen again id b at) (λ e. (err e, c))
            (λ choice. carry_out b.item_id choice c) raised of_choice)
    | inr (r, e) ↦ rw (e, commit_get) (kept r)
  ]
    where
      of_choice :
          (choice : Choice)
          → choose seen again id b at ≡ ok choice
          → P (carry_out b.item_id choice c)
      of_choice (winner r) e = kept r
      of_choice (give q r) e =
          let gift = choose-give seen again id b at q r e in
          transaction_cases P check_commit c (select_body q b.item_id r) raised λ s c' body _.
            elim (select_body-cases q b.item_id r s c c' gift.same_request
              (λ pending. rw gift.same_request (disjoint q.request_id q pending)) body) [
                | inl (same_tables, found) ↦ rw same_tables (kept s)
                | inr (same_result, move) ↦ rw same_result (given_to q r c' gift move)
              ]
