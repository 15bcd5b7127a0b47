-- ===== src/Container/Records.antt =====
-- The container records of sose/core/runtime.py, with the checks of their `__post_init__`.
-- Amounts and levels are whole numbers of the smallest unit, times are numbers.
use sose.Prelude.{
  Keyed, Result, String, discrete_fields, ltb, ok, raise_if, refl, str_eq, value_error, ℕ, ◌==◌,
  ◌>>◌,
}

-- "put" or "get"
pub data Operation : Type 0 where
  put get : Operation

pub record ContainerDefinition : Type 0 where
  pub name : String
  pub capacity : ℕ
  pub initial : ℕ

pub record ContainerState : Type 0 where
  pub name : String
  pub level : ℕ

pub record ContainerOperationIntent : Type 0 where
  pub request_id : String
  pub container_name : String
  pub operation : Operation
  pub amount : ℕ
  pub requested_at : ℕ
  pub sequence : ℕ

pub record ContainerOperationResult : Type 0 where
  pub request_id : String
  pub container_name : String
  pub operation : Operation
  pub amount : ℕ
  pub completed_at : ℕ
  pub level_before : ℕ
  pub level_after : ℕ
  pub sequence : ℕ

instance abbrev pub definition_keyed : Keyed ContainerDefinition
definition_keyed = record { key = λ d. d.name }

instance abbrev pub state_keyed : Keyed ContainerState
state_keyed = record { key = λ s. s.name }

instance abbrev pub intent_keyed : Keyed ContainerOperationIntent
intent_keyed = record { key = λ i. i.request_id }

instance abbrev pub result_keyed : Keyed ContainerOperationResult
result_keyed = record { key = λ r. r.request_id }

unfoldable pub Operation-discrete : Discrete Operation
Operation-discrete put put = yes refl
Operation-discrete get get = yes refl
Operation-discrete put get = no (λ e. cc)
Operation-discrete get put = no (λ e. cc)

unfoldable pub ContainerDefinition-discrete : Discrete ContainerDefinition
ContainerDefinition-discrete = hlevel discrete_fields

unfoldable pub ContainerState-discrete : Discrete ContainerState
ContainerState-discrete = hlevel discrete_fields

unfoldable pub ContainerOperationIntent-discrete : Discrete ContainerOperationIntent
ContainerOperationIntent-discrete = hlevel (discrete_fields, Operation-discrete)

unfoldable pub ContainerOperationResult-discrete : Discrete ContainerOperationResult
ContainerOperationResult-discrete = hlevel (discrete_fields, Operation-discrete)

unfoldable pub make_state : String → ℕ → Result ContainerState
make_state name level = do
  raise_if (str_eq name "") (value_error "container name cannot be empty")
  ok (record { name = name; level = level })

unfoldable pub make_definition : String → ℕ → ℕ → Result ContainerDefinition
make_definition name capacity initial = do
  raise_if (str_eq name "") (value_error "container name cannot be empty")
  raise_if (capacity == 0) (value_error "container capacity must be finite and > 0")
  raise_if (ltb capacity initial)
      (value_error "container initial level must be finite and between 0 and capacity")
  ok (record { name = name; capacity = capacity; initial = initial })

unfoldable pub make_intent :
    String → String → Operation → ℕ → ℕ → ℕ → Result ContainerOperationIntent
make_intent request_id container_name operation amount requested_at sequence = do
  raise_if (str_eq request_id "") (value_error "request_id cannot be empty")
  raise_if (str_eq container_name "") (value_error "container_name cannot be empty")
  raise_if (amount == 0) (value_error "container amount must be finite and > 0")
  raise_if (sequence == 0) (value_error "container operation sequence must be >= 1")
  ok (record {
    request_id = request_id;
    container_name = container_name;
    operation = operation;
    amount = amount;
    requested_at = requested_at;
    sequence = sequence;
  })

-- The result of an intent that takes the level from `level_before` to `level_after`.
unfoldable pub make_result : ContainerOperationIntent → ℕ → ℕ → ℕ → Result ContainerOperationResult
make_result intent completed_at level_before level_after = do
  raise_if (str_eq intent.request_id "") (value_error "request_id cannot be empty")
  raise_if (str_eq intent.container_name "") (value_error "container_name cannot be empty")
  raise_if (intent.amount == 0) (value_error "container amount must be finite and > 0")
  raise_if (intent.sequence == 0) (value_error "container result sequence must be >= 1")
  ok (record {
    request_id = intent.request_id;
    container_name = intent.container_name;
    operation = intent.operation;
    amount = intent.amount;
    completed_at = completed_at;
    level_before = level_before;
    level_after = level_after;
    sequence = intent.sequence;
  })
