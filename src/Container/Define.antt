-- ===== src/Container/Define.antt =====
-- What the transactions of `define` and `_request` do.
use sose.Prelude.{
  Error, Result, String, arith, bind-eq-ok, differs→eq, eq_iff, err, find, find-save, has, none, ok,
  plan_cases, same, save, some, transaction, transaction_cases, true, ℕ, ◌≡◌, ◌≤◌,
}
use sose.Container.Records.{
  ContainerDefinition, ContainerDefinition-discrete, ContainerOperationIntent, ContainerState,
  ContainerState-discrete, Operation, definition_keyed, intent_keyed, make_state, result_keyed,
  state_keyed,
}
use sose.Container.Tables.{
  Containers, check_commit, save_container_definition, save_container_operation_intent,
  save_container_state,
}
use sose.Container.Manager.{
  Call, define, define_body, plan_request, request, request_body, submit_intent, submitted,
}

module _ (definition : ContainerDefinition) (state : ContainerState) (c c' : Containers) where
  -- A transaction of `define` stores the definition and its initial state, and replaces neither
  -- by another.
  pub record Defined : Type 0 where
    pub name : state.name ≡ definition.name
    pub level : state.level ≡ definition.initial
    pub same_definition :
        (d : ContainerDefinition) → find definition.name c.definitions ≡ some d → d ≡ definition
    pub same_state : (s : ContainerState) → find state.name c.states ≡ some s → s ≡ state
    pub fits : state.level ≤ definition.capacity
    pub definitions : c'.definitions ≡ save definition c.definitions
    pub states : c'.states ≡ save state c.states
    pub intents : c'.intents ≡ c.intents
    pub results : c'.results ≡ c.results

module _ (definition : ContainerDefinition) (state : ContainerState) (c c' : Containers)
    (made : make_state definition.name definition.initial ≡ ok state) where
  define_body-Defined : define_body definition state c ≡ ok (tt, c') → Defined definition state c c'
  unfolding save_container_definition save_container_state make_state
  define_body-Defined h = record {
    name = ground arith;
    level = ground arith;
    same_definition = λ d e.
        differs→eq ContainerDefinition-discrete (find definition.name c.definitions) definition d
          (ground arith) e;
    same_state = λ s e.
        differs→eq ContainerState-discrete (find state.name c.states) state s (ground arith) e;
    fits =
        ground
          (arith, find-save state.name definition c.definitions, eq_iff definition.name state.name);
    definitions = ground arith;
    states = ground arith;
    intents = ground arith;
    results = ground arith;
  }

-- `define` raises and changes nothing, or stores the definition and its initial state.
pub define_cases {ℓ} :
    (P : Result (Unit {0}) × Containers → Type ℓ) (definition : ContainerDefinition)
    (c : Containers)
    → ((e : Error) → P (err e, c))
    → ((s : ContainerState) (c' : Containers) → Defined definition s c c' → P (ok tt, c'))
    → P (define definition c)
unfolding define
define_cases P definition c raised stored =
    plan_cases P (make_state definition.name definition.initial) (λ e. (err e, c))
      (λ s. transaction check_commit (define_body definition s) c) raised
      λ s made.
        transaction_cases P check_commit c (define_body definition s) raised
          λ _ c' body _. stored s c' (define_body-Defined definition s c c' made body)

module _ (intent : ContainerOperationIntent) (c c' : Containers) where
  -- A transaction of `_request` adds one pending intent.
  pub record Requested : Type 0 where
    pub known : has intent.container_name c.definitions ≡ true
    pub fresh : find intent.request_id c.results ≡ none
    pub added : c' ≡ record c { intents = save intent c.intents }

  save_intent-Requested : save_container_operation_intent intent c ≡ ok c' → Requested
  unfolding save_container_operation_intent has
  save_intent-Requested h = ground arith

request_body-ok :
    (intent i : ContainerOperationIntent) (c c' : Containers)
    → request_body intent c ≡ ok (i, c')
    → (i ≡ intent) × (save_container_operation_intent intent c ≡ ok c')
request_body-ok intent i c c' h =
    let (a, e, f) =
      bind-eq-ok (save_container_operation_intent intent c) (λ uow. ok (intent, uow)) h in
    (cc, cc)

-- `_request` raises and changes nothing, or stores the intent that it has planned and submits it.
pub request_cases {ℓ} :
    (P : Result (ContainerOperationIntent × Call) × Containers → Type ℓ) (seen : Containers)
    (name id : String) (operation : Operation) (amount now : ℕ) (c : Containers)
    → ((e : Error) → P (err e, c))
    → ((i : ContainerOperationIntent) (c' : Containers)
        → plan_request seen name id operation amount now ≡ ok i
        → Requested i c c'
        → P (ok (i, submit_intent i), c'))
    → P (request seen name id operation amount now c)
unfolding request
request_cases P seen name id operation amount now c raised stored =
    plan_cases P (plan_request seen name id operation amount now) (λ e. (err e, c))
      (λ i. submitted (transaction check_commit (request_body i) c)) raised
      λ i planned.
        transaction_cases (λ o. P (submitted o)) check_commit c (request_body i) raised
          λ j c' body _.
            let (same, saved) = request_body-ok i j c c' body in
            rw same (stored i c' planned (save_intent-Requested i c c' saved))
