-- ===== src/Container/Outcome.antt =====
-- What one worker's `commit` of a pending request does: both outcomes.
use sose.Prelude.{
  Option-cases, String, Unique-delete, arith, delete, eq_iff, err, find, find-delete, find-key,
  find-save, find-sorted, inl, inr, none, ok, overlaps-false, runtime_error, same_self, save, some,
  ℕ, ◌<◌, ◌≡◌, ◌≤◌,
}
use sose.Container.Records.{
  ContainerDefinition, ContainerOperationIntent, ContainerOperationIntent-discrete,
  ContainerOperationResult, ContainerState, ContainerState-discrete, Operation-discrete,
  definition_keyed, intent_keyed, make_result, make_state, result_keyed, state_keyed,
}
use sose.Container.Tables.{
  Containers, check_commit, container_operation_intents, delete_container_operation_intent,
  save_container_operation_result, save_container_state,
}
use sose.Container.Manager.{
  Plan, apply_plan, commit, feasible_level, next_level, plan_commit, result,
}
use sose.Container.Invariant.{Inv}
use sose.Container.Recovery.{definitions_found, results_found, states_found}

-- The record of an operation that takes its container from one level to another.
unfoldable pub completed : ContainerOperationIntent → ℕ → ℕ → ℕ → ContainerOperationResult
completed i now before after = record {
  request_id = i.request_id;
  container_name = i.container_name;
  operation = i.operation;
  amount = i.amount;
  completed_at = now;
  level_before = before;
  level_after = after;
  sequence = i.sequence;
}

abbrev pub leveled_at : String → ℕ → ContainerState
leveled_at name level = record { name = name; level = level }

module _ (c : Containers) (id : String) (now : ℕ) (i : ContainerOperationIntent)
    (s : ContainerState) (d : ContainerDefinition) (v : Inv c)
    (pending : find id c.intents ≡ some i) (state : find i.container_name c.states ≡ some s)
    (definition : find i.container_name c.definitions ≡ some d) where
  intents_found : find id (container_operation_intents c) ≡ find id c.intents
  unfolding container_operation_intents
  intents_found = find-sorted _ id c.intents v.unique_intents

  no_result : result c id ≡ none
  unfolding result
  no_result = rw (results_found c v id) (v.disjoint id i pending)

  abbrev planned : ℕ → Plan
  planned n = record {
    intent = i;
    before = s;
    result = completed i now s.level n;
    after = leveled_at i.container_name n;
  }

  abbrev after : ℕ → Containers
  after n = record {
    definitions = c.definitions;
    states = save (leveled_at i.container_name n) c.states;
    intents = delete id c.intents;
    results = save (completed i now s.level n) c.results;
  }

  plan_feasible :
      (n : ℕ)
      → next_level i.operation s.level i.amount ≡ some n
      → n ≤ d.capacity
      → plan_commit c id now ≡ ok (planned n)
  unfolding plan_commit feasible_level make_result make_state completed
  plan_feasible n level fits = ground (
    arith,
    intents_found,
    pending,
    states_found c v i.container_name,
    state,
    definitions_found c v i.container_name,
    definition,
    v.intent_valid id i,
  )

  apply_feasible :
      (n : ℕ) → n ≤ d.capacity → apply_plan (planned n) c ≡ ok (completed i now s.level n, after n)
  unfolding apply_plan save_container_state save_container_operation_result
      delete_container_operation_intent completed Operation-discrete
  apply_feasible n fits = ground (
    arith,
    pending,
    state,
    definition,
    find-key id c.intents i,
    same_self ContainerOperationIntent-discrete i,
    same_self ContainerState-discrete s,
    v.disjoint id i,
    eq_iff i.container_name i.container_name,
  )

  check_feasible : (n : ℕ) → check_commit (after n) ≡ ok tt
  unfolding check_commit completed
  check_feasible n = ground (
    arith,
    overlaps-false (delete id c.intents) (save (completed i now s.level n) c.results)
        (Unique-delete id c.intents v.unique_intents)
        (λ k j e.
          unfold completed in
          ground (
            arith,
            find-delete k id c.intents,
            find-save k (completed i now s.level n) c.results,
            find-key id c.intents i,
            eq_iff i.request_id k,
            eq_iff id k,
            pending,
            v.disjoint k j,
          )),
  )

  -- In tables that meet the invariant, a pending request whose operation leads to a level `n`
  -- within the capacity completes when nothing is committed in between: the container is at `n`,
  -- the request has left the pending ones, and its record is stored; nothing else changes.
  pub commit_feasible :
      (n : ℕ)
      → next_level i.operation s.level i.amount ≡ some n
      → n ≤ d.capacity
      → commit c id now c ≡ (ok (completed i now s.level n), after n)
  unfolding commit
  commit_feasible n level fits =
      rw (no_result, commit)
        (rw (plan_feasible n level fits) (rw (apply_feasible n fits) (rw (check_feasible n))))

  -- In tables that meet the invariant, a pending request whose operation would leave the range
  -- from 0 to the capacity raises, and changes nothing.
  pub commit_infeasible :
      ((n : ℕ) → next_level i.operation s.level i.amount ≡ some n → d.capacity < n)
      → commit c id now c
        ≡ (err (runtime_error "backend completed infeasible container operation"), c)
  unfolding commit plan_commit feasible_level
  commit_infeasible outside =
      rw (no_result, commit)
        (elim (Option-cases (next_level i.operation s.level i.amount)) [
          | inl below ↦ ground (
            arith,
            intents_found,
            pending,
            states_found c v i.container_name,
            state,
            definitions_found c v i.container_name,
            definition,
          )
          | inr (n, e) ↦ ground (
            arith,
            outside n,
            intents_found,
            pending,
            states_found c v i.container_name,
            state,
            definitions_found c v i.container_name,
            definition,
          )
        ])
