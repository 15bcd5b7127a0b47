-- ===== src/Resource/Records.antt =====
-- The resource records of sose/core/runtime.py. A priority and a time are natural numbers.
use sose.Prelude.{
  Keyed, Result, String, discrete_fields, ok, raise_if, str_eq, value_error, ℕ, ◌==◌, ◌>>◌,
}

pub record ResourceDefinition : Type 0 where
  pub name : String
  pub capacity : ℕ

pub record ResourceDemand : Type 0 where
  pub priority : ℕ
  pub sequence : ℕ
  pub request_id : String
  pub resource_name : String
  pub requested_at : ℕ

pub record ResourceReservation : Type 0 where
  pub reservation_id : String
  pub request_id : String
  pub resource_name : String
  pub acquired_at : ℕ
  pub sequence : ℕ

pub record ResourceReleaseIntent : Type 0 where
  pub intent_id : String
  pub reservation_id : String
  pub resource_name : String
  pub requested_at : ℕ

instance abbrev pub definition_keyed : Keyed ResourceDefinition
definition_keyed = record { key = λ d. d.name }

instance abbrev pub demand_keyed : Keyed ResourceDemand
demand_keyed = record { key = λ d. d.request_id }

instance abbrev pub reservation_keyed : Keyed ResourceReservation
reservation_keyed = record { key = λ r. r.reservation_id }

instance abbrev pub intent_keyed : Keyed ResourceReleaseIntent
intent_keyed = record { key = λ i. i.intent_id }

unfoldable pub ResourceDefinition-discrete : Discrete ResourceDefinition
ResourceDefinition-discrete = hlevel discrete_fields

unfoldable pub ResourceDemand-discrete : Discrete ResourceDemand
ResourceDemand-discrete = hlevel discrete_fields

unfoldable pub ResourceReservation-discrete : Discrete ResourceReservation
ResourceReservation-discrete = hlevel discrete_fields

unfoldable pub ResourceReleaseIntent-discrete : Discrete ResourceReleaseIntent
ResourceReleaseIntent-discrete = hlevel discrete_fields

-- The checks of `ResourceDefinition.__post_init__`.
unfoldable pub make_definition : String → ℕ → Result ResourceDefinition
make_definition name capacity = do
  raise_if (str_eq name "") (value_error "resource name cannot be empty")
  raise_if (capacity == 0) (value_error "resource capacity must be >= 1")
  ok (record { name = name; capacity = capacity })

-- `ResourceDemand.__init__`
unfoldable pub make_demand : String → String → ℕ → ℕ → ℕ → Result ResourceDemand
make_demand request_id resource_name priority requested_at sequence = do
  raise_if (str_eq request_id "") (value_error "request_id cannot be empty")
  raise_if (str_eq resource_name "") (value_error "resource_name cannot be empty")
  ok (record {
    priority = priority;
    sequence = sequence;
    request_id = request_id;
    resource_name = resource_name;
    requested_at = requested_at;
  })
