-- ===== src/Preempt/Grant.antt =====
-- core/preemption.py: the callbacks of the backend, and the two ways in which a demand becomes a
-- reservation. `_build_preemption_outcome` is `successor_of` and `result_of`.
use sose.Prelude.{
  Bool, List, Result, String, [], err, false, find, if◌then◌else◌, leb, length, none, not, ok,
  raise_if, runtime_error, save, some, str_eq, transaction, true, ℕ, ◌>>=◌, ◌>>◌, ◌∷◌,
}
use sose.Preempt.Records.{
  PreemptiveResourceDefinition, PreemptiveResourceDemand, PreemptiveResourceReservation,
  ResourceLease, ResourcePreemption, ResourcePreemptionResult, demand_keyed, make_preemption_result,
  make_reservation, reservation_keyed,
}
use sose.Preempt.Tables.{no_check}
use sose.Preempt.Manager.{
  Manager, definition_of, demand_for, displaced_keyed, granted_keyed, leased_keyed, on_tables,
  reservation_for,
}
use sose.Preempt.Commit.{active_in, is_releasing, swap_body, grant_body, swapped, granted}

module _ (deterministic_id : String → List String → String) where
  unfoldable pub successor_of : PreemptiveResourceDemand → ℕ → Result PreemptiveResourceReservation
  successor_of demand acquired_at =
      make_reservation
        (deterministic_id "preemptive-resource-reservation"
          (demand.resource_name ∷ demand.request_id ∷ []))
        demand acquired_at

  unfoldable pub result_of :
      PreemptiveResourceDemand
      → PreemptiveResourceReservation
      → PreemptiveResourceReservation
      → ℕ
      → Result ResourcePreemptionResult
  result_of demand displaced successor preempted_at =
      make_preemption_result
        (deterministic_id "resource-preemption" (displaced.reservation_id ∷ demand.request_id ∷ []))
        demand displaced successor preempted_at

  unfoldable pub preemption_outcome :
      PreemptiveResourceDemand
      → PreemptiveResourceReservation
      → ℕ
      → ℕ
      → Result (PreemptiveResourceReservation × ResourcePreemptionResult)
  unfolding successor_of result_of
  preemption_outcome demand displaced preempted_at acquired_at = do
    raise_if (not (str_eq demand.resource_name displaced.resource_name))
        (runtime_error "preemption pair crosses resources")
    successor ← successor_of demand acquired_at
    result ← result_of demand displaced successor preempted_at
    ok (successor, result)

  abbrev pub swap :
      PreemptiveResourceDemand
      → PreemptiveResourceReservation
      → ResourceLease
      → String
      → Manager
      → PreemptiveResourceReservation × ResourcePreemptionResult
      → Result Bool × Manager
  swap demand displaced lease request_id m (successor, result) =
      swapped request_id lease displaced.reservation_id successor.reservation_id
        (on_tables m (transaction no_check (swap_body demand displaced successor result) m.tables))

  abbrev pub paired : String → ResourceLease → ResourcePreemption → Manager → Result Bool × Manager
  paired request_id lease event m = elim (demand_for m.tables request_id) [
    | none ↦ (ok false, m)
    | some demand ↦ elim (reservation_for m.tables event.request_id) [
      | none ↦ (ok false, m)
      | some displaced ↦
          elim (preemption_outcome demand displaced event.preempted_at lease.acquired_at) [
            | err e ↦ (err e, m)
            | ok outcome ↦ swap demand displaced lease request_id m outcome
          ]
    ]
  ]

  -- `_try_commit_preemption`
  unfoldable pub try_commit_preemption : String → Manager → Result Bool × Manager
  unfolding preemption_outcome
  try_commit_preemption request_id m = elim (find request_id m.pending_grants) [
    | none ↦ (ok false, m)
    | some grant ↦ elim (find request_id m.pending_preemptions) [
      | none ↦ (ok false, m)
      | some displaced ↦ paired request_id grant.lease displaced.event m
    ]
  ]

  -- `_commit_normal_grant`, and what `_try_commit_normal_grant` does after it.
  abbrev pub commit_normal_grant :
      PreemptiveResourceDemand → ResourceLease → String → Manager → Result Bool × Manager
  commit_normal_grant demand lease request_id m = elim (successor_of demand lease.acquired_at) [
    | err e ↦ (err e, m)
    | ok reservation ↦
        granted request_id lease
          (on_tables m (transaction no_check (grant_body demand reservation) m.tables))
  ]

  abbrev pub within_capacity :
      PreemptiveResourceDemand
      → ResourceLease
      → String
      → Manager
      → PreemptiveResourceDefinition
      → Result Bool × Manager
  within_capacity demand lease request_id m definition =
      if is_releasing demand.resource_name m.tables
      then (ok false, m)
      else if leb definition.capacity (length (active_in demand.resource_name m.tables))
      then (ok false, m)
      else commit_normal_grant demand lease request_id m

  -- `_try_commit_normal_grant`
  unfoldable pub try_commit_normal_grant : String → Manager → Result Bool × Manager
  unfolding successor_of
  try_commit_normal_grant request_id m = elim (find request_id m.pending_grants) [
    | none ↦ (ok false, m)
    | some grant ↦ elim (demand_for m.tables request_id) [
      | none ↦ (ok false, m)
      | some demand ↦ elim (definition_of m.tables demand.resource_name) [
        | err e ↦ (err e, m)
        | ok definition ↦ within_capacity demand grant.lease request_id m definition
      ]
    ]
  ]

  -- A preemption if its two halves are there, else a grant within the capacity.
  abbrev pub else_normal : String → Result Bool × Manager → Result Bool × Manager
  else_normal request_id (err e, m) = (err e, m)
  else_normal request_id (ok true, m) = (ok true, m)
  else_normal request_id (ok false, m) = try_commit_normal_grant request_id m

  unfoldable pub try_commit : String → Manager → Result Bool × Manager
  unfolding try_commit_preemption try_commit_normal_grant
  try_commit request_id m = else_normal request_id (try_commit_preemption request_id m)

  abbrev pub returned {ℓ} : {A : Type ℓ} → Result A × Manager → Result (Unit {0}) × Manager
  returned (err e, m) = (err e, m)
  returned (ok _, m) = (ok tt, m)

  -- `_record_acquired`
  unfoldable pub record_acquired : String → ResourceLease → Manager → Result (Unit {0}) × Manager
  unfolding try_commit
  record_acquired request_id lease m = elim (reservation_for m.tables request_id) [
    | some existing ↦ (
      ok tt,
      record m {
        backend_leases =
            save (record { reservation_id = existing.reservation_id; lease = lease })
              m.backend_leases;
      },
    )
    | none ↦ elim (demand_for m.tables request_id) [
      | none ↦ (ok tt, m)
      | some demand ↦ returned (
          try_commit request_id (record m {
            pending_grants =
                save (record { request_id = request_id; lease = lease }) m.pending_grants;
          }))
    ]
  ]

  abbrev pub preempted_for : ResourcePreemption → String → Manager → Result (Unit {0}) × Manager
  preempted_for event preempting m = elim (reservation_for m.tables event.request_id) [
    | none ↦ (ok tt, m)
    | some displaced ↦
        if not (str_eq displaced.resource_name event.resource_name)
        then (err (runtime_error "preemption callback targets wrong resource"), m)
        else returned (
            try_commit_preemption preempting (record m {
              pending_preemptions =
                  save (record { preempted_by = preempting; event = event }) m.pending_preemptions;
            }))
  ]

  -- `_record_preempted`
  unfoldable pub record_preempted : ResourcePreemption → Manager → Result (Unit {0}) × Manager
  unfolding try_commit_preemption
  record_preempted event m = elim event.preempted_by [
    | none ↦ (err (runtime_error "preemption is missing preempting request identity"), m)
    | some preempting ↦
        if str_eq preempting ""
        then (err (runtime_error "preemption is missing preempting request identity"), m)
        else preempted_for event preempting m
  ]
