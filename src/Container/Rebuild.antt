-- ===== src/Container/Rebuild.antt =====
-- core/containers.py: validation of the durable tables, and their reconstruction into a fresh
-- backend as the list of calls that the backend gets.
use sose.Prelude.{
  List, Option, Result, [], err, find, for_each, has, key_error, length, ltb, map, none, not, ok,
  or_raise, raise_if, runtime_error, some, ℕ, ◌++◌, ◌+◌, ◌==◌, ◌>>=◌, ◌>>◌, ◌∷◌,
}
use sose.Container.Records.{
  ContainerDefinition, ContainerOperationIntent, ContainerOperationResult, ContainerState,
  definition_keyed, intent_keyed, result_keyed, state_keyed,
}
use sose.Container.Tables.{
  Containers, container_definitions, container_operation_intents, container_operation_results,
  container_states,
}
use sose.Container.Manager.{Call, create_container, next_level, submit_intent}

abbrev pub level_fits : ContainerDefinition → Option ContainerState → Result (Unit {0})
level_fits definition none = err (runtime_error "container is missing durable state")
level_fits definition (some state) =
    raise_if (ltb definition.capacity state.level)
      (runtime_error "container level exceeds capacity")

unfoldable pub validate_definitions_and_states :
    List ContainerDefinition → List ContainerState → Result (Unit {0})
validate_definitions_and_states definitions states = do
  for_each (λ definition. level_fits definition (find definition.name states)) definitions
  for_each
      (λ state.
        raise_if (not (has state.name definitions))
          (runtime_error "container state references unknown definition"))
      states

-- The level that the record of an operation should end at; `none` stands for one below zero.
abbrev delta_fits : ContainerDefinition → ContainerOperationResult → Option ℕ → Result (Unit {0})
delta_fits definition result none =
    err (runtime_error "container result has inconsistent level delta")
delta_fits definition result (some expected) = do
  raise_if (not (result.level_after == expected))
      (runtime_error "container result has inconsistent level delta")
  raise_if (ltb definition.capacity result.level_after)
      (runtime_error "container result level is outside capacity")

unfoldable pub validate_result_record :
    List ContainerDefinition → ContainerOperationResult → Result (Unit {0})
validate_result_record definitions result = do
  definition ←
      or_raise (find result.container_name definitions)
        (runtime_error "container result references unknown definition")
  delta_fits definition result (next_level result.operation result.level_before result.amount)

unfoldable pub validate_intent :
    List ContainerDefinition
    → List ContainerOperationResult
    → ContainerOperationIntent
    → Result (Unit {0})
validate_intent definitions results intent = do
  raise_if (not (has intent.container_name definitions))
      (runtime_error "container operation references unknown definition")
  raise_if (has intent.request_id results)
      (runtime_error "container request is both pending and completed")

unfoldable pub validate_pending_and_completed_operations :
    List ContainerDefinition → Containers → Result (Unit {0})
unfolding validate_intent validate_result_record
validate_pending_and_completed_operations definitions c = do
  for_each (validate_intent definitions (container_operation_results c))
      (container_operation_intents c)
  for_each (validate_result_record definitions) (container_operation_results c)

unfoldable pub validate_rebuild : Containers → Result (Unit {0})
unfolding validate_definitions_and_states validate_pending_and_completed_operations
validate_rebuild c = do
  validate_definitions_and_states (container_definitions c) (container_states c)
  validate_pending_and_completed_operations (container_definitions c) c

-- `backend.create_container(name, capacity, initial=states[name].level)`
unfoldable pub create_call : List ContainerState → ContainerDefinition → Result Call
create_call states definition = do
  state ← or_raise (find definition.name states) (key_error "container state")
  ok (create_container definition.name definition.capacity state.level)

unfoldable pub create_calls : List ContainerState → List ContainerDefinition → Result (List Call)
create_calls states [] = ok []
create_calls states (definition ∷ definitions) =
    let rest = create_calls states definitions in
    do call ← create_call states definition; calls ← rest; ok (call ∷ calls)

unfoldable pub rebuild_backend : Containers → Result (List Call × ℕ)
unfolding validate_rebuild create_call create_calls submit_intent
rebuild_backend c = do
  validate_rebuild c
  created ← create_calls (container_states c) (container_definitions c)
  ok (
    created ++ map submit_intent (container_operation_intents c),
    length (container_definitions c) + length (container_operation_intents c),
  )
