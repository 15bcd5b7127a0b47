-- ===== src/Container/Manager.antt =====
-- core/containers.py: the manager. A method reads the tables before its transaction and checks
-- what it read inside it. `seen` are the tables at the reads, and the last argument is the tables
-- at the transaction: they differ where another worker committed in between.
use sose.Prelude.{
  Option, Result, String, differs, err, find, has, if◌then◌else◌, key_error, ltb, max, max_of, none,
  not, ok, or_raise, raise_if, runtime_error, same, some, transaction, value_error, ℕ, ◌+◌, ◌-◌,
  ◌>>=◌, ◌>>◌, ◌||◌,
}
use sose.Container.Records.{
  ContainerDefinition, ContainerOperationIntent, ContainerOperationIntent-discrete,
  ContainerOperationResult, ContainerState, ContainerState-discrete, Operation, definition_keyed,
  intent_keyed, make_intent, make_result, make_state, result_keyed, state_keyed,
}
use sose.Container.Float.{rounded}
use sose.Container.Tables.{
  Containers, check_commit, container_definitions, container_operation_intents,
  container_operation_results, container_states, delete_container_operation_intent,
  save_container_definition, save_container_operation_intent, save_container_operation_result,
  save_container_state,
}

-- What the manager asks of the simulation backend.
pub data Call : Type 0 where
  create_container : String → ℕ → ℕ → Call
  put_container get_container : String → String → ℕ → Call

unfoldable pub submit_intent : ContainerOperationIntent → Call
submit_intent intent = elim intent.operation [
  | Operation.put ↦ put_container intent.container_name intent.request_id intent.amount
  | Operation.get ↦ get_container intent.container_name intent.request_id intent.amount
]

abbrev keep_state : ContainerState → Option ContainerState → Result (Unit {0})
keep_state state existing =
    raise_if (differs ContainerState-discrete existing state)
      (value_error "container state already exists")

abbrev pub define_body :
    ContainerDefinition → ContainerState → Containers → Result (Unit {0} × Containers)
define_body definition state uow = do
  uow ← save_container_definition definition uow
  keep_state state (find state.name uow.states)
  uow ← save_container_state state uow
  ok (tt, uow)

unfoldable pub define : ContainerDefinition → Containers → Result (Unit {0}) × Containers
define definition c = elim (make_state definition.name definition.initial) [
  | err e ↦ (err e, c)
  | ok state ↦ transaction check_commit (define_body definition state) c
]

unfoldable pub result : Containers → String → Option ContainerOperationResult
result seen request_id = find request_id (container_operation_results seen)

unfoldable pub pending_intent : Containers → String → Result ContainerOperationIntent
pending_intent seen request_id =
    or_raise (find request_id (container_operation_intents seen))
      (key_error "unknown container operation intent")

unfoldable pub container_state : Containers → String → Result ContainerState
container_state seen name =
    or_raise (find name (container_states seen)) (key_error "unknown durable container state")

unfoldable pub definition_of : Containers → String → Result ContainerDefinition
definition_of seen name =
    or_raise (find name (container_definitions seen)) (key_error "unknown container definition")

unfoldable pub next_sequence : Containers → ℕ
next_sequence seen =
    max (max_of (λ i. i.sequence) (container_operation_intents seen))
      (max_of (λ r. r.sequence) (container_operation_results seen))
    + 1

-- The level after an operation; `none` stands for a level below zero.
unfoldable pub next_level : Operation → ℕ → ℕ → Option ℕ
next_level Operation.put level amount = some (rounded (level + amount))
next_level Operation.get level amount =
    if ltb level amount then none else some (rounded (level - amount))

-- `level_after < 0 or level_after > capacity` raises
unfoldable pub feasible_level : Option ℕ → ℕ → Result ℕ
feasible_level none capacity =
    err (runtime_error "backend completed infeasible container operation")
feasible_level (some level) capacity =
    if ltb capacity level
    then err (runtime_error "backend completed infeasible container operation")
    else ok level

-- What `commit` has read and computed when its transaction begins.
pub record Plan : Type 0 where
  pub intent : ContainerOperationIntent
  pub before : ContainerState
  pub result : ContainerOperationResult
  pub after : ContainerState

unfoldable pub plan_commit : Containers → String → ℕ → Result Plan
unfolding pending_intent container_state definition_of
plan_commit seen request_id completed_at = do
  intent ← pending_intent seen request_id
  state ← container_state seen intent.container_name
  definition ← definition_of seen intent.container_name
  level_after ←
      feasible_level (next_level intent.operation state.level intent.amount) definition.capacity
  result ← make_result intent completed_at state.level level_after
  after ← make_state intent.container_name level_after
  ok (record { intent = intent; before = state; result = result; after = after })

unfoldable pub apply_plan : Plan → Containers → Result (ContainerOperationResult × Containers)
apply_plan plan uow =
    if same ContainerOperationIntent-discrete (find plan.intent.request_id uow.intents) plan.intent
    then (do
      raise_if
          (not
            (same ContainerState-discrete (find plan.intent.container_name uow.states) plan.before))
          (runtime_error "container state changed before operation commit")
      uow ← save_container_state plan.after uow
      uow ← save_container_operation_result plan.result uow
      ok (plan.result, delete_container_operation_intent plan.intent.request_id uow))
    else (do
      completed ←
          or_raise (find plan.intent.request_id uow.results)
            (runtime_error "container operation intent changed")
      ok (completed, uow))

unfoldable pub commit :
    Containers → String → ℕ → Containers → Result ContainerOperationResult × Containers
commit seen request_id completed_at c = elim (result seen request_id) [
  | some existing ↦ (ok existing, c)
  | none ↦ elim (plan_commit seen request_id completed_at) [
    | err e ↦ (err e, c)
    | ok plan ↦ transaction check_commit (apply_plan plan) c
  ]
]

unfoldable pub plan_request :
    Containers → String → String → Operation → ℕ → ℕ → Result ContainerOperationIntent
unfolding definition_of
plan_request seen container_name request_id operation amount requested_at = do
  _ ← definition_of seen container_name
  raise_if
      (has request_id (container_operation_intents seen)
        || has request_id (container_operation_results seen))
      (value_error "container request already exists")
  make_intent request_id container_name operation amount requested_at (next_sequence seen)

abbrev pub submitted :
    Result ContainerOperationIntent × Containers
    → Result (ContainerOperationIntent × Call) × Containers
submitted (ok intent, c) = (ok (intent, submit_intent intent), c)
submitted (err e, c) = (err e, c)

abbrev pub request_body :
    ContainerOperationIntent → Containers → Result (ContainerOperationIntent × Containers)
request_body intent uow = do uow ← save_container_operation_intent intent uow; ok (intent, uow)

-- `_request`: the intent is durable before the backend is asked.
unfoldable pub request :
    Containers
    → String
    → String
    → Operation
    → ℕ
    → ℕ
    → Containers
    → Result (ContainerOperationIntent × Call) × Containers
unfolding submit_intent
request seen container_name request_id operation amount requested_at c =
    elim (plan_request seen container_name request_id operation amount requested_at) [
      | err e ↦ (err e, c)
      | ok intent ↦ submitted (transaction check_commit (request_body intent) c)
    ]

unfoldable pub put :
    Containers
    → String
    → String
    → ℕ
    → ℕ
    → Containers
    → Result (ContainerOperationIntent × Call) × Containers
unfolding request
put seen container_name request_id amount requested_at c =
    request seen container_name request_id Operation.put amount requested_at c

unfoldable pub get :
    Containers
    → String
    → String
    → ℕ
    → ℕ
    → Containers
    → Result (ContainerOperationIntent × Call) × Containers
unfolding request
get seen container_name request_id amount requested_at c =
    request seen container_name request_id Operation.get amount requested_at c
