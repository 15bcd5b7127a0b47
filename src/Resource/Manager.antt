-- ===== src/Resource/Manager.antt =====
-- core/resources.py: requests, grants and cancellations. `seen` are the tables at a method's reads,
-- and the last argument is the tables at its transaction.
use sose.Prelude.{
  Bool, List, Option, Result, String, [], err, false, find, has, if◌then◌else◌, is_some, key_error,
  max, max_of, none, not, ok, raise_if, runtime_error, same, some, transaction, true, value_error,
  ℕ, ◌+◌, ◌>>=◌, ◌>>◌, ◌||◌, ◌∷◌,
}
use sose.Resource.Records.{
  ResourceDemand, ResourceDemand-discrete, ResourceReservation, definition_keyed, demand_keyed,
  make_demand, reservation_keyed,
}
use sose.Resource.Tables.{
  Resources, delete_resource_demand, no_check, reservation_of, reserved, resource_definitions,
  resource_demands, resource_reservations, save_resource_demand, save_resource_reservation,
}

-- What the manager asks of the backend.
pub data Call : Type 0 where
  create_resource : String → ℕ → Call
  request_resource : String → String → ℕ → Call

unfoldable pub reservation_for : Resources → String → Option ResourceReservation
reservation_for seen request_id = reservation_of request_id (resource_reservations seen)

unfoldable pub has_request : Resources → String → Bool
unfolding reservation_for
has_request seen request_id =
    is_some (reservation_for seen request_id) || has request_id (resource_demands seen)

unfoldable pub next_sequence : Resources → ℕ
next_sequence seen =
    max (max_of (λ d. d.sequence) (resource_demands seen))
      (max_of (λ r. r.sequence) (resource_reservations seen))
    + 1

unfoldable pub plan_request : Resources → String → String → ℕ → ℕ → Result ResourceDemand
plan_request seen resource_name request_id requested_at priority = do
  raise_if (not (has resource_name (resource_definitions seen)))
      (key_error "unknown resource definition")
  raise_if
      (has request_id (resource_demands seen) || reserved request_id (resource_reservations seen))
      (value_error "resource request already exists")
  make_demand request_id resource_name priority requested_at (next_sequence seen)

abbrev pub demand_body : ResourceDemand → Resources → Result (ResourceDemand × Resources)
demand_body demand uow = do uow ← save_resource_demand demand uow; ok (demand, uow)

abbrev pub submitted :
    Result ResourceDemand × Resources → Result (ResourceDemand × Call) × Resources
submitted (ok d, c) = (ok (d, request_resource d.resource_name d.request_id d.priority), c)
submitted (err e, c) = (err e, c)

unfoldable pub request :
    Resources → String → String → ℕ → ℕ → Resources → Result (ResourceDemand × Call) × Resources
request seen resource_name request_id requested_at priority c =
    elim (plan_request seen resource_name request_id requested_at priority) [
      | err e ↦ (err e, c)
      | ok demand ↦ submitted (transaction no_check (demand_body demand) c)
    ]

-- The transaction of `cancel_pending`.
abbrev pub cancel_body : ResourceDemand → Resources → Result (Bool × Resources)
cancel_body demand uow = do
  raise_if (not (same ResourceDemand-discrete (find demand.request_id uow.demands) demand))
      (runtime_error "resource demand changed during cancellation")
  ok (true, delete_resource_demand demand.request_id uow)

-- `cancelled` is what `backend.cancel_resource_request` answers.
unfoldable pub cancel_pending : Resources → Bool → String → Resources → Result Bool × Resources
cancel_pending seen cancelled request_id c = elim (find request_id (resource_demands seen)) [
  | none ↦ (ok false, c)
  | some demand ↦ if cancelled then transaction no_check (cancel_body demand) c else (ok false, c)
]

module _ (deterministic_id : String → List String → String) where
  unfoldable pub reservation_from : ResourceDemand → ℕ → ResourceReservation
  reservation_from demand acquired_at = record {
    reservation_id =
        deterministic_id "resource-reservation" (demand.resource_name ∷ demand.request_id ∷ []);
    request_id = demand.request_id;
    resource_name = demand.resource_name;
    acquired_at = acquired_at;
    sequence = demand.sequence;
  }

  -- The transaction of `commit_grant`.
  abbrev pub grant_body :
      ResourceDemand → ResourceReservation → Resources → Result (ResourceReservation × Resources)
  grant_body demand reservation uow = do
    raise_if (not (same ResourceDemand-discrete (find demand.request_id uow.demands) demand))
        (runtime_error "resource demand changed before grant")
    uow ← save_resource_reservation reservation (delete_resource_demand demand.request_id uow)
    ok (reservation, uow)

  unfoldable pub commit_grant :
      Resources → String → ℕ → Resources → Result ResourceReservation × Resources
  unfolding reservation_from
  commit_grant seen request_id acquired_at c = elim (reservation_for seen request_id) [
    | some existing ↦ (ok existing, c)
    | none ↦ elim (find request_id (resource_demands seen)) [
      | none ↦ (err (key_error "unknown resource demand"), c)
      | some demand ↦
          transaction no_check (grant_body demand (reservation_from demand acquired_at)) c
    ]
  ]
