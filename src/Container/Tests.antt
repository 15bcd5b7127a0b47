-- ===== src/Container/Tests.antt =====
-- Runs of the container manager at concrete inputs, and the theorems at inputs that meet their
-- hypotheses.
use sose.Container.Float.{rounded, spacing}
use sose.Container.Ledger.{replayed}
use sose.Container.Rebuild.{rebuild_backend}
use sose.Prelude.{
  List, [], ap, arith, delete, differs, err, find, for_each, has, max_of, none, ok, overlaps, refl,
  runtime_error, save, some, sorted, subst, ◌+◌, ◌^◌, ◌∷◌, ◌≡◌,
}
use sose.Container.Records.{
  ContainerDefinition, ContainerOperationIntent, ContainerState, Operation, definition_keyed,
  intent_keyed, make_intent, make_state, result_keyed, state_keyed,
}
use sose.Container.Tables.{
  Containers, check_commit, container_definitions, container_operation_intents,
  container_operation_results, container_states, empty, save_container_definition,
  save_container_operation_intent, save_container_state,
}
use sose.Container.Manager.{
  commit, create_container, define, definition_of, next_level, next_sequence, plan_request,
  put_container, request, result,
}
use sose.Container.Invariant.{Inv}
use sose.Container.System.{
  Step, commit_once, commits, defines, requests, run, run-Replayed, run-Inv,
}
use sose.Container.Outcome.{commit_feasible, commit_infeasible, completed}

abbrev tank : ContainerDefinition
tank = record { name = "tank"; capacity = 10; initial = 4 }

abbrev defined : Containers
defined = record empty {
  definitions = tank ∷ [];
  states = record { name = "tank"; level = 4 } ∷ [];
}

abbrev fill : ContainerOperationIntent
fill = record {
  request_id = "r1";
  container_name = "tank";
  operation = Operation.put;
  amount = 5;
  requested_at = 20;
  sequence = 1;
}

abbrev requested : Containers
requested = record defined { intents = fill ∷ [] }

abbrev filled : Containers
filled = record defined {
  states = record { name = "tank"; level = 9 } ∷ [];
  results =
      record {
        request_id = "r1";
        container_name = "tank";
        operation = Operation.put;
        amount = 5;
        completed_at = 30;
        level_before = 4;
        level_after = 9;
        sequence = 1;
      }
      ∷ [];
}

abbrev history : List Step
history = defines tank ∷ requests defined "tank" "r1" Operation.put 5 20 ∷ []

history_requests : run empty history ≡ requested
unfolding run define request plan_request make_state make_intent definition_of next_sequence
    save_container_definition save_container_state save_container_operation_intent check_commit
    container_definitions container_operation_intents container_operation_results sorted find save
    has overlaps max_of differs
history_requests = refl

first_read : result requested "r1" ≡ none
unfolding result container_operation_results sorted find
first_read = refl

requested-Inv : Inv requested
requested-Inv = subst Inv history_requests (run-Inv history)

abbrev four : ContainerState
four = record { name = "tank"; level = 4 }

run-Inv_example : Inv (run empty history)
run-Inv_example = run-Inv history

commit_feasible_example : commit requested "r1" 30 requested ≡ (ok (completed fill 30 4 9), filled)
unfolding completed save delete find next_level rounded spacing
commit_feasible_example =
    commit_feasible requested "r1" 30 fill four tank requested-Inv refl refl refl 9 refl
      (omega arith)

abbrev drain : ContainerOperationIntent
drain = record fill { operation = Operation.get }

drain_history :
    run empty (defines tank ∷ requests defined "tank" "r1" Operation.get 5 20 ∷ [])
    ≡ record defined { intents = drain ∷ [] }
unfolding run define request plan_request make_state make_intent definition_of next_sequence
    save_container_definition save_container_state save_container_operation_intent check_commit
    container_definitions container_operation_intents container_operation_results sorted find save
    has overlaps max_of differs
drain_history = refl

-- Getting 5 from a level of 4 is refused.
commit_infeasible_example :
    commit
      (record defined { intents = drain ∷ [] })
      "r1"
      30
      (record defined { intents = drain ∷ [] })
    ≡ (
      err (runtime_error "backend completed infeasible container operation"),
      record defined { intents = drain ∷ [] },
    )
unfolding find next_level
commit_infeasible_example =
    commit_infeasible (record defined { intents = drain ∷ [] }) "r1" 30 drain four tank
      (subst Inv drain_history
        (run-Inv (defines tank ∷ requests defined "tank" "r1" Operation.get 5 20 ∷ [])))
      refl refl refl (λ n e. cc)

abbrev full_history : List Step
full_history =
    defines tank ∷ requests defined "tank" "r1" Operation.put 5 20 ∷ commits requested "r1" 30 ∷ []

full_run : run empty full_history ≡ filled
unfolding run define request plan_request make_state make_intent definition_of next_sequence
    save_container_definition save_container_state save_container_operation_intent check_commit
    container_definitions container_operation_intents container_operation_results sorted find save
    has overlaps max_of differs
full_run = ap (λ o. o.1) commit_feasible_example

-- Past 53 bits a sum is rounded, and halfway to the even neighbour.
rounds_down : rounded (2 ^ 53 + 1) ≡ 2 ^ 53
unfolding rounded spacing
rounds_down = refl

rounds_up : rounded (2 ^ 53 + 3) ≡ 2 ^ 53 + 4
unfolding rounded spacing
rounds_up = refl

-- 4 and 5 make 9.
run-Replayed_example : replayed "tank" 4 (run empty full_history).results ≡ some 9
unfolding find
run-Replayed_example =
    run-Replayed full_history "tank" tank (record { name = "tank"; level = 9 }) (rw full_run)
      (rw full_run)

commit_once_example :
    (find "r1" (run filled []).results ≡ some (completed fill 30 4 9))
    × ((commit requested "r1" 31 (run filled [])).1 ≡ run filled [])
    × (commit (run filled []) "r1" 31 (run filled []) ≡ (ok (completed fill 30 4 9), run filled []))
commit_once_example =
    commit_once requested requested filled "r1" 30 (completed fill 30 4 9) requested-Inv first_read
      commit_feasible_example [] requested 31

rebuilds :
    rebuild_backend requested
    ≡ ok (create_container "tank" 10 4 ∷ put_container "tank" "r1" 5 ∷ [], 2)
unfolding rebuild_backend container_definitions container_states container_operation_intents
    container_operation_results sorted find has for_each next_level
rebuilds = refl
