-- ===== src/Container/Tables.antt =====
-- The container families of a unit of work (persistence/memory.py), and the sorted reads that the
-- manager makes of them.
use sose.Prelude.{
  Bool, List, Result, String, [], decided, delete, differs, err, find, has, if◌then◌else◌,
  key_error, ltb, none, not, ok, or_raise, overlaps, pair_leb, raise_if, save, some, sorted, str_eq,
  str_leb, value_error, ◌&&◌, ◌>>=◌, ◌>>◌,
}
use sose.Container.Records.{
  ContainerDefinition, ContainerDefinition-discrete, ContainerOperationIntent,
  ContainerOperationIntent-discrete, ContainerOperationResult, ContainerOperationResult-discrete,
  ContainerState, Operation-discrete, definition_keyed, intent_keyed, result_keyed, state_keyed,
}

pub record Containers : Type 0 where
  pub definitions : List ContainerDefinition
  pub states : List ContainerState
  pub intents : List ContainerOperationIntent
  pub results : List ContainerOperationResult

abbrev pub empty : Containers
empty = record { definitions = []; states = []; intents = []; results = [] }

unfoldable pub container_definitions : Containers → List ContainerDefinition
container_definitions c = sorted (λ a b. str_leb a.name b.name) c.definitions

unfoldable pub container_states : Containers → List ContainerState
container_states c = sorted (λ a b. str_leb a.name b.name) c.states

unfoldable pub container_operation_intents : Containers → List ContainerOperationIntent
container_operation_intents c =
    sorted (λ a b. pair_leb a.sequence a.request_id b.sequence b.request_id) c.intents

unfoldable pub container_operation_results : Containers → List ContainerOperationResult
container_operation_results c =
    sorted (λ a b. pair_leb a.sequence a.request_id b.sequence b.request_id) c.results

unfoldable pub save_container_definition : ContainerDefinition → Containers → Result Containers
unfolding differs
save_container_definition definition c = do
  raise_if (differs ContainerDefinition-discrete (find definition.name c.definitions) definition)
      (value_error "container definition already exists")
  ok (record c { definitions = save definition c.definitions })

unfoldable pub save_container_state : ContainerState → Containers → Result Containers
save_container_state state c = do
  definition ← or_raise (find state.name c.definitions) (key_error "unknown container definition")
  raise_if (ltb definition.capacity state.level) (value_error "container level exceeds capacity")
  ok (record c { states = save state c.states })

unfoldable pub save_container_operation_intent :
    ContainerOperationIntent → Containers → Result Containers
unfolding differs
save_container_operation_intent intent c = do
  raise_if (not (has intent.container_name c.definitions))
      (key_error "unknown container definition")
  raise_if (has intent.request_id c.results) (value_error "container request already completed")
  raise_if (differs ContainerOperationIntent-discrete (find intent.request_id c.intents) intent)
      (value_error "container request already exists")
  ok (record c { intents = save intent c.intents })

unfoldable pub delete_container_operation_intent : String → Containers → Containers
delete_container_operation_intent request_id c = record c { intents = delete request_id c.intents }

abbrev matches : ContainerOperationIntent → ContainerOperationResult → Bool
matches intent result =
    str_eq intent.container_name result.container_name
    && decided (Operation-discrete intent.operation result.operation)

save_new_result : ContainerOperationResult → Containers → Result Containers
save_new_result result c = do
  intent ←
      or_raise (find result.request_id c.intents) (key_error "unknown container operation intent")
  raise_if (not (matches intent result)) (value_error "container result does not match intent")
  ok (record c { results = save result c.results })

unfoldable pub save_container_operation_result :
    ContainerOperationResult → Containers → Result Containers
unfolding save_new_result
save_container_operation_result result c = elim (find result.request_id c.results) [
  | some existing ↦
      if decided (ContainerOperationResult-discrete existing result)
      then ok c
      else err (value_error "container result already exists")
  | none ↦ save_new_result result c
]

-- The container part of `commit`.
unfoldable pub check_commit : Containers → Result (Unit {0})
check_commit c =
    raise_if (overlaps c.intents c.results)
      (value_error "container operation identity cannot be pending and completed")
