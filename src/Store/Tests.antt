-- ===== src/Store/Tests.antt =====
-- Runs of the store manager at concrete inputs, and the theorems at inputs that meet their
-- hypotheses.
use sose.Prelude.{
  String-discrete, ℕ_discrete, List, String, Bool, [], delete, differs, find, for_each, has, keep,
  length, map, max_of, none, ok, overlaps, refl, same, save, some, sorted, subst, total, ◌++◌, ◌+◌,
  ◌∷◌, ◌≡◌, ℕ,
}
use sose.Store.Records.{
  DurableStoreItem, StoreDefinition, StoreGetRequest, StoreGetResult, StoreKind, StorePutIntent,
  definition_keyed, item_keyed, make_item, make_put, make_request, make_result, put_keyed,
  request_keyed, result_keyed, StorePutIntent-discrete, StoreGetRequest-discrete,
  StoreKind-discrete,
}
use sose.Store.Tables.{
  Stores, check_commit, empty, save_store_definition, save_store_get_request, save_store_get_result,
  save_store_item, save_store_put_intent, store_definitions, store_get_requests, store_get_results,
  store_items, store_put_intents, delete_store_get_request, delete_store_put_intent,
}
use sose.Store.Manager.{
  Call, commit_put, create_store, define, definition_of, get, get_store, item_with_id, known_filter,
  next_sequence, pending_get, pending_put_intent, plan_get, plan_put, put, put_store, selection,
  submit_get_request, submit_put_intent,
}
use sose.Store.Select.{
  BackendItem, choose, commit_get, consume_persisted_store_item, consume_store_item, select_body,
}
use sose.Store.Rebuild.{
  create_backend_store, rebuild_backend, restore_pending_operations, restore_store_items,
  validate_get, validate_rebuild, validate_store_capacities, validate_store_records,
}
use sose.Store.Ensure.{assert_store_item_identity, consumed_in, consumed_item_with_id, ensure_put}
use sose.Store.Invariant.{Inv}
use sose.Store.Ledger.{consumed, held}
use sose.Store.System.{
  Step, all_arrivals, consumed_once, defines, gets, puts, run, selection_final, selects, step,
  stores, stores_run-Inv,
}
use sose.Store.Restore.{put_back, rebuild_restores}
use sose.Store.Ensured.{EnsureStep, ensure_run, ensure_step, ensures, runs}

abbrev no_filter : String → Bool
no_filter name = Bool.false

abbrev shelf : StoreDefinition
shelf = record { name = "shelf"; kind = StoreKind.fifo; capacity = some 2 }

abbrev defined : Stores
defined = record empty { definitions = shelf ∷ [] }

abbrev box_put : StorePutIntent
box_put = record {
  item_id = "box";
  store_name = "shelf";
  value = "{}";
  priority = 0;
  requested_at = 5;
  sequence = 1;
}

abbrev box : DurableStoreItem
box = record { item_id = "box"; store_name = "shelf"; value = "{}"; priority = 0; sequence = 1 }

abbrev box_pending : Stores
box_pending = record defined { put_intents = box_put ∷ [] }

abbrev ask : StoreGetRequest
ask = record {
  request_id = "ask";
  store_name = "shelf";
  requested_at = 6;
  sequence = 2;
  filter_key = none;
}

abbrev asked : Stores
asked = record defined { items = box ∷ []; get_requests = ask ∷ [] }

abbrev answer : StoreGetResult
answer = record {
  request_id = "ask";
  store_name = "shelf";
  item = box;
  completed_at = 7;
  sequence = 2;
}

abbrev given_out : Stores
given_out = record defined { get_results = answer ∷ [] }

abbrev to_asked : List Step
to_asked =
    defines shelf
    ∷ puts defined "shelf" "box" "{}" 5 0
    ∷ stores box_pending "box"
    ∷ gets (record defined { items = box ∷ [] }) "shelf" "ask" 6 none
    ∷ []

abbrev offered : BackendItem
offered = record { item_id = "box"; store_name = "shelf" }

abbrev to_given_out : List Step
to_given_out =
    defines shelf
    ∷ puts defined "shelf" "box" "{}" 5 0
    ∷ stores box_pending "box"
    ∷ gets (record defined { items = box ∷ [] }) "shelf" "ask" 6 none
    ∷ selects asked asked "ask" offered 7
    ∷ []

asks : run no_filter empty to_asked ≡ asked
unfolding run step define put get commit_put plan_put plan_get make_put make_item make_request
    definition_of known_filter next_sequence item_with_id pending_put_intent save_store_definition
    save_store_put_intent save_store_item save_store_get_request delete_store_put_intent
    check_commit store_definitions store_items store_put_intents store_get_requests
    store_get_results sorted find save delete has overlaps max_of differs same
    StorePutIntent-discrete String-discrete ℕ_discrete
asks = refl

gives_out : run no_filter empty to_given_out ≡ given_out
unfolding run step define put get commit_put commit_get choose plan_put plan_get make_put make_item
    make_request make_result definition_of known_filter next_sequence item_with_id
    pending_put_intent pending_get selection consume_store_item consume_persisted_store_item
    select_body save_store_definition save_store_put_intent save_store_item save_store_get_request
    save_store_get_result delete_store_put_intent delete_store_get_request check_commit
    store_definitions store_items store_put_intents store_get_requests store_get_results sorted find
    save delete has overlaps max_of differs same StorePutIntent-discrete String-discrete ℕ_discrete
    StoreGetRequest-discrete
gives_out = refl

stores_run-Inv_example : Inv (run no_filter empty to_given_out)
stores_run-Inv_example = stores_run-Inv no_filter to_given_out

consumed_once_example :
    consumed "box" (run no_filter empty to_given_out)
      + held "box" (run no_filter empty to_given_out)
    ≡ all_arrivals no_filter "box" empty to_given_out
consumed_once_example = consumed_once no_filter to_given_out "box"

selection_final_example :
    (find "ask" (run no_filter (run no_filter empty to_given_out) []).get_results ≡ some answer)
    × ((again : Stores) (b : BackendItem) (at : ℕ)
        → commit_get
            (run no_filter (run no_filter empty to_given_out) [])
            again
            "ask"
            b
            at
            (run no_filter (run no_filter empty to_given_out) [])
          ≡ (ok answer, run no_filter (run no_filter empty to_given_out) []))
unfolding find
selection_final_example = selection_final no_filter to_given_out [] "ask" answer (rw gives_out refl)

rebuild_restores_example :
    (calls : List Call) × (rebuild_backend no_filter asked
      ≡ ok (
        map create_backend_store (store_definitions asked) ++ calls,
        length asked.items + length asked.put_intents + length asked.get_requests,
      ))
    × ((f : Call → ℕ)
        → total f calls
          ≡ total (λ i. f (put_back i)) asked.items
            + total (λ i. f (submit_put_intent i)) asked.put_intents
            + total (λ r. f (submit_get_request r)) asked.get_requests)
unfolding validate_rebuild validate_store_records validate_store_capacities validate_get
    known_filter store_definitions store_items store_put_intents store_get_requests sorted find has
    for_each keep
rebuild_restores_example =
    rebuild_restores asked (subst Inv asks (stores_run-Inv no_filter to_asked)) no_filter refl

rebuilds :
    rebuild_backend no_filter asked
    ≡ ok (
      create_store StoreKind.fifo "shelf" (some 2)
          ∷ put_store "shelf" "box" "{}" 0
          ∷ get_store "shelf" "ask" none
          ∷ [],
      2,
    )
unfolding rebuild_backend validate_rebuild validate_store_records validate_store_capacities
    validate_get known_filter create_backend_store restore_store_items restore_pending_operations
    submit_put_intent submit_get_request store_definitions store_items store_put_intents
    store_get_requests sorted find has for_each keep StoreKind-discrete
rebuilds = refl

abbrev no_steps : List Step
no_steps = []

abbrev shelf_only : List EnsureStep
shelf_only = runs (defines shelf ∷ []) ∷ []

-- The put is accepted, the item is given out, and the caller retries.
abbrev given_out_and_retried : List EnsureStep
given_out_and_retried =
    runs (
      stores box_pending "box"
      ∷ gets (record defined { items = box ∷ [] }) "shelf" "ask" 6 none
      ∷ selects asked asked "ask" offered 7
      ∷ [])
    ∷ ensures "shelf" "box" "{}" 9 0 []
    ∷ []

retry_adds_nothing : ensure_run no_filter box_pending given_out_and_retried ≡ given_out
unfolding ensure_run ensure_step ensure_put assert_store_item_identity consumed_item_with_id
    consumed_in run step get commit_put commit_get choose plan_get make_item make_request
    make_result definition_of known_filter next_sequence item_with_id pending_put_intent pending_get
    selection consume_store_item consume_persisted_store_item select_body save_store_item
    save_store_get_request save_store_get_result delete_store_put_intent delete_store_get_request
    check_commit store_definitions store_items store_put_intents store_get_requests
    store_get_results sorted find save delete has overlaps max_of differs same
    StorePutIntent-discrete String-discrete ℕ_discrete StoreGetRequest-discrete
retry_adds_nothing = refl
