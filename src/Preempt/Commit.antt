-- ===== src/Preempt/Commit.antt =====
-- core/preemption.py: the transactions that make a demand a reservation, and what follows them in memory.
use sose.Prelude.{
  Bool, List, Result, String, [], delete, err, false, find, if◌then◌else◌, keep, none, not, ok,
  runtime_error, same, save, some, str_eq, true, ◌>>=◌, ◌∷◌,
}
use sose.Preempt.Records.{
  PreemptiveResourceDemand, PreemptiveResourceDemand-discrete, PreemptiveResourceReservation,
  PreemptiveResourceReservation-discrete, ResourceLease, ResourcePreemptionResult, demand_keyed,
  reservation_keyed,
}
use sose.Preempt.Tables.{
  Preemptives, delete_preemptive_resource_demand, delete_preemptive_resource_reservation,
  preemptive_resource_release_intents, preemptive_resource_reservations,
  save_preemptive_resource_reservation, save_resource_preemption_result,
}
use sose.Preempt.Manager.{Manager, displaced_keyed, granted_keyed, leased_keyed, reservation_for}

-- The reservations of a resource.
abbrev pub active_in : String → Preemptives → List PreemptiveResourceReservation
active_in name c = keep (λ r. str_eq r.resource_name name) (preemptive_resource_reservations c)

abbrev pub is_releasing : String → Preemptives → Bool
is_releasing name c =
    elim (keep (λ i. str_eq i.resource_name name) (preemptive_resource_release_intents c)) [
      | [] ↦ false
      | i ∷ others ↦ true
    ]

-- The transaction of `_try_commit_preemption`: false where what was read has changed.
abbrev pub swap_body :
    PreemptiveResourceDemand
    → PreemptiveResourceReservation
    → PreemptiveResourceReservation
    → ResourcePreemptionResult
    → Preemptives
    → Result (Bool × Preemptives)
swap_body demand displaced successor result uow =
    if not (same PreemptiveResourceDemand-discrete (find demand.request_id uow.demands) demand)
    then ok (false, uow)
    else if not (
        same PreemptiveResourceReservation-discrete (find displaced.reservation_id uow.reservations)
          displaced)
    then ok (false, uow)
    else (do
      uow ← save_preemptive_resource_reservation successor (
          delete_preemptive_resource_reservation displaced.reservation_id
            (delete_preemptive_resource_demand demand.request_id uow))
      uow ← save_resource_preemption_result result uow
      ok (true, uow))

-- The transaction of `_commit_normal_grant`: the reservation, and whether it is new.
abbrev pub grant_body :
    PreemptiveResourceDemand
    → PreemptiveResourceReservation
    → Preemptives
    → Result ((PreemptiveResourceReservation × Bool) × Preemptives)
grant_body demand reservation uow =
    if not (same PreemptiveResourceDemand-discrete (find demand.request_id uow.demands) demand)
    then elim (reservation_for uow demand.request_id) [
      | some existing ↦ ok ((existing, false), uow)
      | none ↦ err (runtime_error "preemptive demand changed before grant")
    ]
    else (do
      uow ←
          save_preemptive_resource_reservation reservation
            (delete_preemptive_resource_demand demand.request_id uow)
      ok ((reservation, true), uow))

-- What the manager does in memory after each of the two.
abbrev pub swapped :
    String → ResourceLease → String → String → Result Bool × Manager → Result Bool × Manager
swapped request_id lease displaced_id successor_id (err e, m) = (err e, m)
swapped request_id lease displaced_id successor_id (ok false, m) = (ok false, m)
swapped request_id lease displaced_id successor_id (ok true, m) = (
  ok true,
  record m {
    backend_leases =
        save (record { reservation_id = successor_id; lease = lease })
          (delete displaced_id m.backend_leases);
    pending_grants = delete request_id m.pending_grants;
    pending_preemptions = delete request_id m.pending_preemptions;
  },
)

abbrev pub granted :
    String
    → ResourceLease
    → Result (PreemptiveResourceReservation × Bool) × Manager
    → Result Bool × Manager
granted request_id lease (err e, m) = (err e, m)
granted request_id lease (ok (reservation, false), m) =
    (ok true, record m { pending_grants = delete request_id m.pending_grants })
granted request_id lease (ok (reservation, true), m) = (
  ok true,
  record m {
    backend_leases =
        save (record { reservation_id = reservation.reservation_id; lease = lease })
          m.backend_leases;
    pending_grants = delete request_id m.pending_grants;
  },
)
