-- ===== src/Preempt/Manager.antt =====
-- core/preemption.py: the manager of one process, with what it keeps in memory; its lookups,
-- definitions, requests and cancellations. User callbacks are left out.
use sose.Prelude.{
  Bool, Keyed, List, Option, Result, String, [], delete, err, false, find, has, if◌then◌else◌,
  key_error, max, max_of, none, not, ok, or_raise, raise_if, runtime_error, same, some, transaction,
  true, value_error, ℕ, ◌+◌, ◌>>=◌, ◌>>◌, ◌||◌,
}
use sose.Preempt.Records.{
  PreemptiveResourceDefinition, PreemptiveResourceDemand, PreemptiveResourceDemand-discrete,
  PreemptiveResourceReservation, ResourceLease, ResourcePreemption, definition_keyed, demand_keyed,
  make_demand,
}
use sose.Preempt.Tables.{
  Preemptives, delete_preemptive_resource_demand, no_check, preemptive_resource_definitions,
  preemptive_resource_demands, preemptive_resource_reservations, reservation_of, reserved,
  resource_preemption_results, save_preemptive_resource_definition, save_preemptive_resource_demand,
}

-- An entry of `_backend_leases`, of `_pending_grants` and of `_pending_preemptions`.
pub record Leased : Type 0 where
  pub reservation_id : String
  pub lease : ResourceLease

pub record Granted : Type 0 where
  pub request_id : String
  pub lease : ResourceLease

pub record Displaced : Type 0 where
  pub preempted_by : String
  pub event : ResourcePreemption

instance abbrev pub leased_keyed : Keyed Leased
leased_keyed = record { key = λ x. x.reservation_id }

instance abbrev pub granted_keyed : Keyed Granted
granted_keyed = record { key = λ x. x.request_id }

instance abbrev pub displaced_keyed : Keyed Displaced
displaced_keyed = record { key = λ x. x.preempted_by }

pub record Manager : Type 0 where
  pub tables : Preemptives
  pub backend_leases : List Leased
  pub pending_grants : List Granted
  pub pending_preemptions : List Displaced

-- `_clear_ephemeral_state`, which is also what a crash does.
unfoldable pub clear_ephemeral_state : Manager → Manager
clear_ephemeral_state m = record {
  tables = m.tables;
  backend_leases = [];
  pending_grants = [];
  pending_preemptions = [];
}

-- A transaction of the manager, which changes the tables only.
abbrev pub on_tables {ℓ} : {A : Type ℓ} → Manager → Result A × Preemptives → Result A × Manager
on_tables m (answer, c) = (answer, record m { tables = c })

-- What the manager asks of the backend.
pub data Call : Type 0 where
  create_preemptive_resource : String → ℕ → Call
  request_preemptive_resource : String → String → ℕ → Bool → Call

unfoldable pub submit_demand : PreemptiveResourceDemand → Call
submit_demand d = request_preemptive_resource d.resource_name d.request_id d.priority d.preempt

abbrev pub define_body :
    PreemptiveResourceDefinition → Preemptives → Result (Unit {0} × Preemptives)
define_body definition uow = do
  uow ← save_preemptive_resource_definition definition uow
  ok (tt, uow)

unfoldable pub define : PreemptiveResourceDefinition → Manager → Result (Unit {0}) × Manager
define definition m = on_tables m (transaction no_check (define_body definition) m.tables)

unfoldable pub definition_of : Preemptives → String → Result PreemptiveResourceDefinition
definition_of c name =
    or_raise (find name (preemptive_resource_definitions c))
      (key_error "unknown preemptive resource definition")

-- `_demand_for_request`
unfoldable pub demand_for : Preemptives → String → Option PreemptiveResourceDemand
demand_for c request_id = find request_id (preemptive_resource_demands c)

-- `reservation_for`, and `_reservation_for_request`
unfoldable pub reservation_for : Preemptives → String → Option PreemptiveResourceReservation
reservation_for c request_id = reservation_of request_id (preemptive_resource_reservations c)

-- `_request_exists`, and `has_request`
unfoldable pub request_exists : Preemptives → String → Bool
request_exists c request_id =
    has request_id (preemptive_resource_demands c)
    || reserved request_id (preemptive_resource_reservations c)

unfoldable pub next_sequence : Preemptives → ℕ
next_sequence c =
    max
      (max (max_of (λ d. d.sequence) (preemptive_resource_demands c))
        (max_of (λ r. r.sequence) (preemptive_resource_reservations c)))
      (max_of (λ r. r.sequence) (resource_preemption_results c))
    + 1

unfoldable pub plan_request :
    Preemptives → String → String → ℕ → ℕ → Bool → Result PreemptiveResourceDemand
unfolding definition_of request_exists
plan_request c resource_name request_id requested_at priority preempt = do
  _ ← definition_of c resource_name
  raise_if (request_exists c request_id) (value_error "preemptive resource request already exists")
  make_demand request_id resource_name priority preempt requested_at (next_sequence c)

abbrev pub demand_body :
    PreemptiveResourceDemand → Preemptives → Result (PreemptiveResourceDemand × Preemptives)
demand_body demand uow = do uow ← save_preemptive_resource_demand demand uow; ok (demand, uow)

abbrev pub submitted :
    Result PreemptiveResourceDemand × Manager → Result (PreemptiveResourceDemand × Call) × Manager
submitted (ok d, m) = (ok (d, submit_demand d), m)
submitted (err e, m) = (err e, m)

unfoldable pub request :
    String → String → ℕ → ℕ → Bool → Manager → Result (PreemptiveResourceDemand × Call) × Manager
request resource_name request_id requested_at priority preempt m =
    elim (plan_request m.tables resource_name request_id requested_at priority preempt) [
      | err e ↦ (err e, m)
      | ok demand ↦ submitted (on_tables m (transaction no_check (demand_body demand) m.tables))
    ]

-- The transaction of `cancel_pending`, and what it forgets after it.
abbrev pub cancel_body : PreemptiveResourceDemand → Preemptives → Result (Bool × Preemptives)
cancel_body demand uow = do
  raise_if
      (not (same PreemptiveResourceDemand-discrete (find demand.request_id uow.demands) demand))
      (runtime_error "preemptive resource demand changed during cancellation")
  ok (true, delete_preemptive_resource_demand demand.request_id uow)

abbrev pub forgotten : String → Result Bool × Manager → Result Bool × Manager
forgotten request_id (err e, m) = (err e, m)
forgotten request_id (ok b, m) = (
  ok b,
  record m {
    pending_grants = delete request_id m.pending_grants;
    pending_preemptions = delete request_id m.pending_preemptions;
  },
)

-- `cancelled` is what `backend.cancel_preemptive_resource_request` answers.
unfoldable pub cancel_pending : Bool → String → Manager → Result Bool × Manager
cancel_pending cancelled request_id m = elim (demand_for m.tables request_id) [
  | none ↦ (ok false, m)
  | some demand ↦
      if cancelled
      then forgotten request_id (on_tables m (transaction no_check (cancel_body demand) m.tables))
      else (ok false, m)
]
