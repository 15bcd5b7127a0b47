-- ===== src/Store/System.antt =====
-- Histories of the stores: any interleaving of calls by any number of workers, each call with
-- whatever tables it happened to read.
use sose.Prelude.{
  has, total, find-sorted, Bool, List, Option, String, [], arith, eq_iff, err, find, find-save,
  if◌then◌else◌, ok, refl, some, str_eq, ℕ, ◌+◌, ◌-◌, ◌≡◌, ◌∷◌,
}
use sose.Store.Records.{
  StoreDefinition, StoreGetResult, definition_keyed, item_keyed, put_keyed, request_keyed,
  result_keyed,
}
use sose.Store.Tables.{Stores, empty, store_get_results}
use sose.Store.Manager.{selection, commit_put, define, get, put}
use sose.Store.Select.{BackendItem, commit_get}
use sose.Store.Invariant.{Accepted-Inv, Asked-Inv, Defined-Inv, Given-Inv, Inv, Put-Inv, empty-Inv}
use sose.Store.Paths.{commit_get_cases, commit_put_cases, define_cases, get_cases, put_cases}
use sose.Store.Ledger.{
  Accepted-counted, Asked-counted, Defined-counted, Given-counted, Put-counted, consumed, counted,
  held,
}

pub data Step : Type 0 where
  defines : StoreDefinition → Step
  puts : Stores → String → String → String → ℕ → ℕ → Step
  gets : Stores → String → String → ℕ → Option String → Step
  stores : Stores → String → Step
  selects : Stores → Stores → String → BackendItem → ℕ → Step

pub counted-empty : (id : String) → counted id empty ≡ 0
unfolding consumed held total has find
counted-empty id = refl

module _ (filters : String → Bool) where
  unfoldable pub step : Stores → Step → Stores
  step c (defines definition) = (define definition c).1
  step c (puts seen store_name item_id value at prio) =
      (put seen store_name item_id value at prio c).1
  step c (gets seen store_name id at key) = (get filters seen store_name id at key c).1
  step c (stores seen item_id) = (commit_put seen item_id c).1
  step c (selects seen again id b at) = (commit_get seen again id b at c).1

  unfoldable pub run : Stores → List Step → Stores
  unfolding step
  run c [] = c
  run c (s ∷ steps) = run (step c s) steps

  pub step-Inv : (c : Stores) (s : Step) → Inv c → Inv (step c s)
  unfolding step
  step-Inv c (defines d) v =
      define_cases (λ o. Inv o.1) d c (λ e. v) (λ c' q. Defined-Inv d c c' v q)
  step-Inv c (puts seen store_name item_id value at prio) v =
      put_cases (λ o. Inv o.1) seen store_name item_id value at prio c (λ e. v)
        (λ i call c' same q. Put-Inv i c c' v q)
  step-Inv c (gets seen store_name id at key) v =
      get_cases (λ o. Inv o.1) filters seen store_name id at key c (λ e. v)
        (λ r call c' q. Asked-Inv r c c' v q)
  step-Inv c (stores seen item_id) v =
      commit_put_cases (λ o. Inv o.1) c (λ e. v) (λ o. v)
        (λ i item o c' q. Accepted-Inv i item c c' v q) seen item_id
  step-Inv c (selects seen again id b at) v =
      commit_get_cases (λ o. Inv o.1) seen again id b at c v.disjoint (λ e. v) (λ r. v)
        (λ q r c' gift g. Given-Inv q b.item_id r c c' v gift.own g)

  pub run-Inv_from : (c : Stores) (steps : List Step) → Inv c → Inv (run c steps)
  unfolding run
  run-Inv_from c [] v = v
  run-Inv_from c (s ∷ steps) v = run-Inv_from (step c s) steps (step-Inv c s v)

  -- After any history of definitions, puts, gets, acceptances and selections by any number of
  -- workers, however stale the tables that each call has read: identities are distinct; no item is
  -- both pending and stored; no request is both pending and completed; every row names a defined
  -- store; and the item of a result is of the result's store.
  pub stores_run-Inv : (steps : List Step) → Inv (run empty steps)
  stores_run-Inv steps = run-Inv_from empty steps empty-Inv

  -- 1 where the call is a put that succeeds and brings in an item that was not held, else 0.
  unfoldable pub arrivals : String → Stores → Step → ℕ
  arrivals id c (puts seen store_name item_id value at prio) =
      elim ((put seen store_name item_id value at prio c).0) [
        | ok _ ↦ if str_eq item_id id then 1 - held id c else 0
        | err _ ↦ 0
      ]
  arrivals id c _ = 0

  unfoldable pub all_arrivals : String → Stores → List Step → ℕ
  unfolding arrivals
  all_arrivals id c [] = 0
  all_arrivals id c (s ∷ steps) = arrivals id c s + all_arrivals id (step c s) steps

  pub step-counted :
      (id : String) (c : Stores) (s : Step)
      → Inv c
      → counted id (step c s) ≡ counted id c + arrivals id c s
  unfolding step arrivals held consumed
  step-counted id c (defines d) v =
      define_cases (λ o. counted id o.1 ≡ counted id c + 0) d c (λ e. omega arith)
        (λ c' q. omega (arith, Defined-counted id d c c' q))
  step-counted id c (puts seen store_name item_id value at prio) v =
      put_cases
        (λ o.
          counted id o.1
          ≡ counted id c
            + elim o.0 [ ok _ ↦ if str_eq item_id id then 1 - held id c else 0 | err _ ↦ 0 ])
        seen store_name item_id value at prio c (λ e. omega arith)
        (λ i call c' same q. ground (arith, same, Put-counted id i c c' q))
  step-counted id c (gets seen store_name k at key) v =
      get_cases (λ o. counted id o.1 ≡ counted id c + 0) filters seen store_name k at key c
        (λ e. omega arith) (λ r call c' q. omega (arith, Asked-counted id r c c' q))
  step-counted id c (stores seen item_id) v =
      commit_put_cases (λ o. counted id o.1 ≡ counted id c + 0) c (λ e. omega arith)
        (λ o. omega arith) (λ i item o c' q. omega (arith, Accepted-counted id i item c c' q)) seen
        item_id
  step-counted id c (selects seen again k b at) v =
      commit_get_cases (λ o. counted id o.1 ≡ counted id c + 0) seen again k b at c v.disjoint
        (λ e. omega arith) (λ r. omega arith)
        (λ q r c' gift g. omega (arith, Given-counted id b.item_id q r c c' v gift.same_item g))

  pub run-counted :
      (id : String) (c : Stores) (steps : List Step)
      → Inv c
      → counted id (run c steps) ≡ counted id c + all_arrivals id c steps
  unfolding run all_arrivals
  run-counted id c [] v = omega arith
  run-counted id c (s ∷ steps) v =
      omega (arith, run-counted id (step c s) steps (step-Inv c s v), step-counted id c s v)

  -- After any such history, the number of results that gave an item out, and one more where the item
  -- is stored or pending, is the number of puts that brought it in, where a put of an item that is
  -- stored or pending brings nothing in, and a put of an item that was given out brings it in again.
  -- So no item is lost, and it is given out at most as often as it was brought in.
  pub consumed_once :
      (steps : List Step) (id : String)
      → consumed id (run empty steps) + held id (run empty steps) ≡ all_arrivals id empty steps
  consumed_once steps id = omega (arith, run-counted id empty steps empty-Inv, counted-empty id)

  step-keeps_result :
      (c : Stores) (s : Step) (id : String) (r : StoreGetResult)
      → Inv c
      → find id c.get_results ≡ some r
      → find id (step c s).get_results ≡ some r
  unfolding step
  step-keeps_result c (defines d) id r v h =
      define_cases (λ o. find id o.1.get_results ≡ some r) d c (λ e. h) (λ c' q. rw q.stored h)
  step-keeps_result c (puts seen store_name item_id value at prio) id r v h =
      put_cases (λ o. find id o.1.get_results ≡ some r) seen store_name item_id value at prio c
        (λ e. h) (λ i call c' same q. rw q.stored h)
  step-keeps_result c (gets seen store_name k at key) id r v h =
      get_cases (λ o. find id o.1.get_results ≡ some r) filters seen store_name k at key c (λ e. h)
        (λ s call c' q. rw q.stored h)
  step-keeps_result c (stores seen item_id) id r v h =
      commit_put_cases (λ o. find id o.1.get_results ≡ some r) c (λ e. h) (λ o. h)
        (λ i item o c' q. rw q.stored h) seen item_id
  step-keeps_result c (selects seen again k b at) id r v h =
      commit_get_cases (λ o. find id o.1.get_results ≡ some r) seen again k b at c v.disjoint
        (λ e. h) (λ s. h)
        (λ q s c' gift g. ground (
          arith,
          g.stored,
          find-save id s c.get_results,
          eq_iff s.request_id id,
          g.same_request,
          v.disjoint q.request_id q g.pending,
          h,
        ))

  run-keeps_result :
      (c : Stores) (steps : List Step) (id : String) (r : StoreGetResult)
      → Inv c
      → find id c.get_results ≡ some r
      → find id (run c steps).get_results ≡ some r
  unfolding run
  run-keeps_result c [] id r v h = h
  run-keeps_result c (s ∷ steps) id r v h =
      run-keeps_result (step c s) steps id r (step-Inv c s v) (step-keeps_result c s id r v h)

  -- A committed selection is final: after any earlier and any later history the request's result is
  -- the same, and a further `commit_get` of the request that reads it returns it and changes
  -- nothing, whatever item the backend offers.
  pub selection_final :
      (steps later : List Step) (id : String) (r : StoreGetResult)
      → let c = run empty steps in
        find id c.get_results ≡ some r
        → let c' = run c later in
          (find id c'.get_results ≡ some r)
          × ((again : Stores) (b : BackendItem) (at : ℕ)
              → commit_get c' again id b at c' ≡ (ok r, c'))
  unfolding commit_get selection store_get_results
  selection_final steps later id r h =
      let v = stores_run-Inv steps in
      let kept = run-keeps_result (run empty steps) later id r v h in
      let v' = run-Inv_from (run empty steps) later v in
      (
        kept,
        λ again b at.
            rw
              (
                find-sorted _ id (run (run empty steps) later).get_results v'.unique_results,
                kept,
                commit_get,
              )
              refl,
      )
