-- ===== src/Container/Commit.antt =====
-- What a transaction of `commit` does, on every path.
use sose.Prelude.{
  Bool-cases, Error, Option-cases, Result, String, arith, delete, err, find, find-key, has, inl,
  inr, none, ok, plan_cases, same, same→eq, save, some, transaction, transaction_cases, true, ℕ,
  ◌≡◌, ◌≤◌, ◌⊎◌,
}
use sose.Container.Records.{
  ContainerDefinition, ContainerOperationIntent, ContainerOperationIntent-discrete,
  ContainerOperationResult, ContainerState-discrete, definition_keyed, intent_keyed, make_result,
  make_state, result_keyed, state_keyed,
}
use sose.Container.Tables.{
  Containers, check_commit, container_operation_intents, delete_container_operation_intent,
  save_container_operation_result, save_container_state,
}
use sose.Container.Manager.{
  Plan, apply_plan, commit, feasible_level, next_level, plan_commit, result,
}

-- The operation of a plan is the intent's, and its levels are those of the intent's operation.
pub record IsPlan (request_id : String) (p : Plan) : Type 0 where
  pub identity : p.intent.request_id ≡ request_id
  pub level : next_level p.intent.operation p.before.level p.intent.amount ≡ some p.after.level
  pub name : p.after.name ≡ p.intent.container_name
  pub same_request : p.result.request_id ≡ p.intent.request_id
  pub same_container : p.result.container_name ≡ p.intent.container_name
  pub same_operation : p.result.operation ≡ p.intent.operation
  pub same_amount : p.result.amount ≡ p.intent.amount
  pub from_level : p.result.level_before ≡ p.before.level
  pub to_level : p.result.level_after ≡ p.after.level

pub plan_commit-IsPlan :
    (seen : Containers) (request_id : String) (completed_at : ℕ) (p : Plan)
    → plan_commit seen request_id completed_at ≡ ok p
    → IsPlan request_id p
unfolding plan_commit make_result make_state next_level feasible_level
plan_commit-IsPlan seen request_id completed_at p h =
    ground (arith, find-key request_id (container_operation_intents seen) p.intent)

-- A transaction of `commit` that applied the plan.
pub record Committed (p : Plan) (c c' : Containers) : Type 0 where
  pub pending : find p.intent.request_id c.intents ≡ some p.intent
  pub unchanged : find p.intent.container_name c.states ≡ some p.before
  pub known : has p.after.name c.definitions ≡ true
  pub fits :
      (definition : ContainerDefinition)
      → find p.after.name c.definitions ≡ some definition
      → p.after.level ≤ definition.capacity
  pub definitions : c'.definitions ≡ c.definitions
  pub states : c'.states ≡ save p.after c.states
  pub intents : c'.intents ≡ delete p.intent.request_id c.intents
  pub results : c'.results ≡ save p.result c.results

-- A transaction either answers with the record of an earlier completion and changes nothing, or
-- applies the plan once.
pub apply_plan-cases :
    (p : Plan) (c c' : Containers) (r : ContainerOperationResult)
    → (find p.intent.request_id c.intents ≡ some p.intent
        → find p.result.request_id c.results ≡ none)
    → apply_plan p c ≡ ok (r, c')
    → ((c' ≡ c) × (find p.intent.request_id c.results ≡ some r))
      ⊎ ((r ≡ p.result) × Committed p c c')
unfolding apply_plan save_container_state save_container_operation_result
    delete_container_operation_intent has
apply_plan-cases p c c' r fresh h =
    elim (Bool-cases
      (same ContainerOperationIntent-discrete (find p.intent.request_id c.intents) p.intent)) [
        | inl pending ↦
            let found =
              same→eq ContainerOperationIntent-discrete (find p.intent.request_id c.intents)
                p.intent pending in
            let new = fresh found in
            inr (
              ground arith,
              record {
                pending = found;
                unchanged = ground (
                  arith,
                  same→eq ContainerState-discrete (find p.intent.container_name c.states) p.before,
                );
                known = ground arith;
                fits = λ definition e. ground arith;
                definitions = ground arith;
                states = ground arith;
                intents = ground arith;
                results = ground arith;
              },
            )
        | inr gone ↦ inl (ground arith, ground arith)
      ]

-- The paths of `commit`. It answers with a record that it has read or that another worker has
-- stored, it raises and changes nothing, or it applies the plan for its request.
module _ {ℓ} (P : Result ContainerOperationResult × Containers → Type ℓ) (seen : Containers)
    (id : String) (now : ℕ) (c : Containers) where
  pub commit_cases :
      ((k : String) (i : ContainerOperationIntent)
        → find k c.intents ≡ some i
        → find k c.results ≡ none)
      → ((r : ContainerOperationResult) → result seen id ≡ some r → P (ok r, c))
      → ((e : Error) → P (err e, c))
      → ((r : ContainerOperationResult) → find id c.results ≡ some r → P (ok r, c))
      → ((p : Plan) (c' : Containers) → IsPlan id p → Committed p c c' → P (ok p.result, c'))
      → P (commit seen id now c)
  unfolding commit
  commit_cases disjoint existing raised earlier applied = elim (Option-cases (result seen id)) [
    | inl new ↦
        rw (new, commit)
          (plan_cases P (plan_commit seen id now) (λ e. (err e, c))
            (λ p. transaction check_commit (apply_plan p) c) raised of_plan)
    | inr (r, e) ↦ rw (e, commit) (existing r e)
  ]
    where
      of_plan :
          (p : Plan)
          → plan_commit seen id now ≡ ok p
          → P (transaction check_commit (apply_plan p) c)
      of_plan p e =
          let is = plan_commit-IsPlan seen id now p e in
          transaction_cases P check_commit c (apply_plan p) raised λ r c' body _.
            elim (apply_plan-cases p c c' r
              (λ pending. rw is.same_request (disjoint p.intent.request_id p.intent pending))
              body) [
                | inl (same_tables, found) ↦ rw same_tables (earlier r (rw (← is.identity) found))
                | inr (same_result, done) ↦ rw same_result (applied p c' is done)
              ]
