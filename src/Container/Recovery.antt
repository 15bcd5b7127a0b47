-- ===== src/Container/Recovery.antt =====
-- A fresh backend is rebuilt from any tables that the invariant admits.
use sose.Container.Manager.{Call, create_container}
use sose.Prelude.{
  All, All-sorted, All-of_find, List, String, [], arith, find, find-key, find-sorted, for_each-ok,
  has, not, ok, raise_if, runtime_error, some, ◌∷◌, ◌≡◌,
}
use sose.Container.Records.{
  ContainerDefinition, ContainerState, definition_keyed, intent_keyed, result_keyed, state_keyed,
}
use sose.Container.Tables.{
  Containers, container_definitions, container_operation_intents, container_operation_results,
  container_states,
}
use sose.Container.Rebuild.{level_fits, validate_intent, validate_rebuild, validate_result_record}
use sose.Container.Invariant.{Inv}

module _ (c : Containers) (v : Inv c) where
  pub definitions_found :
      (name : String) → find name (container_definitions c) ≡ find name c.definitions
  unfolding container_definitions
  definitions_found name = find-sorted _ name c.definitions v.unique_definitions

  pub states_found : (name : String) → find name (container_states c) ≡ find name c.states
  unfolding container_states
  states_found name = find-sorted _ name c.states v.unique_states

  pub results_found : (id : String) → find id (container_operation_results c) ≡ find id c.results
  unfolding container_operation_results
  results_found id = find-sorted _ id c.results v.unique_results

  definitions_fit :
      All (λ d. level_fits d (find d.name (container_states c)) ≡ ok tt) (container_definitions c)
  unfolding container_definitions
  definitions_fit = All-sorted _ _ c.definitions (
      All-of_find _ c.definitions v.unique_definitions λ name d e.
        let (s, stored, fits) = v.leveled name d e in
        ground (arith, states_found d.name, stored, fits))

  states_fit :
      All
        (λ s.
          raise_if
            (not (has s.name (container_definitions c)))
            (runtime_error "container state references unknown definition")
          ≡ ok tt)
        (container_states c)
  unfolding container_states has
  states_fit = All-sorted _ _ c.states (
      All-of_find _ c.states v.unique_states λ name s e.
        ground (arith, definitions_found s.name, v.state_known name s, find-key name c.states s))

  intents_fit :
      All
        (λ i. validate_intent (container_definitions c) (container_operation_results c) i ≡ ok tt)
        (container_operation_intents c)
  unfolding container_operation_intents validate_intent has
  intents_fit = All-sorted _ _ c.intents (
      All-of_find _ c.intents v.unique_intents λ id i e. ground (
        arith,
        definitions_found i.container_name,
        results_found i.request_id,
        v.intent_known id i,
        find-key id c.intents i,
        v.disjoint id i,
      ))

  results_fit :
      All
        (λ r. validate_result_record (container_definitions c) r ≡ ok tt)
        (container_operation_results c)
  unfolding container_operation_results validate_result_record
  results_fit = All-sorted _ _ c.results (
      All-of_find _ c.results v.unique_results
        λ id r e. rw (definitions_found r.container_name) (v.consistent id r e))

  pub validate_rebuild-ok : validate_rebuild c ≡ ok tt
  unfolding validate_rebuild
  validate_rebuild-ok = rw (for_each-ok _ _ definitions_fit) (
      rw (for_each-ok _ _ states_fit)
        (rw (for_each-ok _ _ intents_fit) (for_each-ok _ _ results_fit)))

-- Each definition is created once, in order, with its capacity and its durable level.
abbrev pub Creates : Containers → List ContainerDefinition → List Call → Type 0
Creates c [] [] = Unit
Creates c (d ∷ ds) (call ∷ calls) =
    ((s : ContainerState) × (find d.name c.states ≡ some s)
      × (call ≡ create_container d.name d.capacity s.level))
    × Creates c ds calls
Creates c _ _ = ⊥
