-- ===== src/Preempt/Records.antt =====
-- The preemptive records of sose/core/runtime.py, with the checks of their constructors, and the
-- lease and the notification of sose/backends/base.py. Times and priorities are natural numbers.
use sose.Prelude.{
  Bool, Keyed, Option, Result, String, discrete_fields, ok, raise_if, str_eq, value_error, ℕ, ◌==◌,
  ◌>>◌,
}

pub record PreemptiveResourceDefinition : Type 0 where
  pub name : String
  pub capacity : ℕ

pub record PreemptiveResourceDemand : Type 0 where
  pub priority : ℕ
  pub sequence : ℕ
  pub request_id : String
  pub resource_name : String
  pub preempt : Bool
  pub requested_at : ℕ

pub record PreemptiveResourceReservation : Type 0 where
  pub reservation_id : String
  pub request_id : String
  pub resource_name : String
  pub acquired_at : ℕ
  pub priority : ℕ
  pub sequence : ℕ

pub record PreemptiveResourceReleaseIntent : Type 0 where
  pub intent_id : String
  pub reservation_id : String
  pub resource_name : String
  pub requested_at : ℕ

pub record ResourcePreemptionResult : Type 0 where
  pub result_id : String
  pub resource_name : String
  pub displaced_reservation_id : String
  pub displaced_request_id : String
  pub preempting_request_id : String
  pub successor_reservation_id : String
  pub preempted_at : ℕ
  pub sequence : ℕ

-- A granted resource, and the notice that one was preempted.
pub record ResourceLease : Type 0 where
  pub lease_id : String
  pub request_id : String
  pub resource_name : String
  pub acquired_at : ℕ

pub record ResourcePreemption : Type 0 where
  pub lease_id : String
  pub request_id : String
  pub resource_name : String
  pub preempted_at : ℕ
  pub preempted_by : Option String

instance abbrev pub definition_keyed : Keyed PreemptiveResourceDefinition
definition_keyed = record { key = λ d. d.name }

instance abbrev pub demand_keyed : Keyed PreemptiveResourceDemand
demand_keyed = record { key = λ d. d.request_id }

instance abbrev pub reservation_keyed : Keyed PreemptiveResourceReservation
reservation_keyed = record { key = λ r. r.reservation_id }

instance abbrev pub intent_keyed : Keyed PreemptiveResourceReleaseIntent
intent_keyed = record { key = λ i. i.intent_id }

instance abbrev pub result_keyed : Keyed ResourcePreemptionResult
result_keyed = record { key = λ r. r.result_id }

unfoldable pub PreemptiveResourceDefinition-discrete : Discrete PreemptiveResourceDefinition
PreemptiveResourceDefinition-discrete = hlevel discrete_fields

unfoldable pub PreemptiveResourceDemand-discrete : Discrete PreemptiveResourceDemand
PreemptiveResourceDemand-discrete = hlevel discrete_fields

unfoldable pub PreemptiveResourceReservation-discrete : Discrete PreemptiveResourceReservation
PreemptiveResourceReservation-discrete = hlevel discrete_fields

unfoldable pub PreemptiveResourceReleaseIntent-discrete : Discrete PreemptiveResourceReleaseIntent
PreemptiveResourceReleaseIntent-discrete = hlevel discrete_fields

unfoldable pub ResourcePreemptionResult-discrete : Discrete ResourcePreemptionResult
ResourcePreemptionResult-discrete = hlevel discrete_fields

unfoldable pub make_definition : String → ℕ → Result PreemptiveResourceDefinition
make_definition name capacity = do
  raise_if (str_eq name "") (value_error "resource name cannot be empty")
  raise_if (capacity == 0) (value_error "resource capacity must be >= 1")
  ok (record { name = name; capacity = capacity })

unfoldable pub make_demand : String → String → ℕ → Bool → ℕ → ℕ → Result PreemptiveResourceDemand
make_demand request_id resource_name priority preempt requested_at sequence = do
  raise_if (str_eq request_id "") (value_error "request_id cannot be empty")
  raise_if (str_eq resource_name "") (value_error "resource_name cannot be empty")
  raise_if (sequence == 0) (value_error "preemptive resource demand sequence must be >= 1")
  ok (record {
    priority = priority;
    sequence = sequence;
    request_id = request_id;
    resource_name = resource_name;
    preempt = preempt;
    requested_at = requested_at;
  })

-- The reservation that a demand is given.
unfoldable pub make_reservation :
    String → PreemptiveResourceDemand → ℕ → Result PreemptiveResourceReservation
make_reservation reservation_id demand acquired_at = do
  raise_if (str_eq reservation_id "") (value_error "reservation_id cannot be empty")
  raise_if (str_eq demand.request_id "") (value_error "request_id cannot be empty")
  raise_if (str_eq demand.resource_name "") (value_error "resource_name cannot be empty")
  raise_if (demand.sequence == 0)
      (value_error "preemptive resource reservation sequence must be >= 1")
  ok (record {
    reservation_id = reservation_id;
    request_id = demand.request_id;
    resource_name = demand.resource_name;
    acquired_at = acquired_at;
    priority = demand.priority;
    sequence = demand.sequence;
  })

unfoldable pub make_preemption_result :
    String
    → PreemptiveResourceDemand
    → PreemptiveResourceReservation
    → PreemptiveResourceReservation
    → ℕ
    → Result ResourcePreemptionResult
make_preemption_result result_id demand displaced successor preempted_at = do
  raise_if (str_eq result_id "") (value_error "preemption result_id cannot be empty")
  raise_if (str_eq demand.resource_name "") (value_error "resource_name cannot be empty")
  raise_if (str_eq displaced.reservation_id "")
      (value_error "displaced_reservation_id cannot be empty")
  raise_if (str_eq displaced.request_id "") (value_error "displaced_request_id cannot be empty")
  raise_if (str_eq demand.request_id "") (value_error "preempting_request_id cannot be empty")
  raise_if (str_eq successor.reservation_id "")
      (value_error "successor_reservation_id cannot be empty")
  raise_if (demand.sequence == 0) (value_error "preemption result sequence must be >= 1")
  ok (record {
    result_id = result_id;
    resource_name = demand.resource_name;
    displaced_reservation_id = displaced.reservation_id;
    displaced_request_id = displaced.request_id;
    preempting_request_id = demand.request_id;
    successor_reservation_id = successor.reservation_id;
    preempted_at = preempted_at;
    sequence = demand.sequence;
  })
