-- ===== src/Preempt/Rebuild.antt =====
-- core/preemption.py: validation of the durable tables, completion of interrupted releases, and the
-- calls that a fresh backend gets.
use sose.Prelude.{
  Bool, List, Result, [], err, false, find, for_each, has, keep, length, ltb, map, none, not, ok,
  or_raise, raise_if, runtime_error, some, str_eq, ℕ, ◌++◌, ◌+◌, ◌>>=◌, ◌>>◌, ◌||◌, ◌∷◌,
}
use sose.Preempt.Records.{
  PreemptiveResourceDefinition, PreemptiveResourceDemand, PreemptiveResourceReleaseIntent,
  PreemptiveResourceReservation, definition_keyed, reservation_keyed,
}
use sose.Preempt.Tables.{
  Preemptives, delete_preemptive_resource_release_intent, preemptive_resource_definitions,
  preemptive_resource_demands, preemptive_resource_release_intents,
  preemptive_resource_reservations, reserved, resource_preemption_results,
}
use sose.Preempt.Manager.{
  Call, Manager, clear_ephemeral_state, create_preemptive_resource, request_preemptive_resource,
  submit_demand,
}
use sose.Preempt.Release.{finalize_release_intent}

abbrev pub release_fits :
    List PreemptiveResourceReservation → PreemptiveResourceReleaseIntent → Result (Unit {0})
release_fits reservations intent = do
  reservation ←
      or_raise (find intent.reservation_id reservations)
        (runtime_error "preemptive release references unknown reservation")
  raise_if (not (str_eq reservation.resource_name intent.resource_name))
      (runtime_error "preemptive release targets wrong resource")

unfoldable pub validate_preemptive_references :
    List PreemptiveResourceDefinition → Preemptives → Result (Unit {0})
validate_preemptive_references definitions c = do
  for_each
      (λ r.
        raise_if (not (has r.resource_name definitions))
          (runtime_error "preemptive reservation references unknown definition"))
      (preemptive_resource_reservations c)
  for_each
      (λ d.
        raise_if (not (has d.resource_name definitions))
          (runtime_error "preemptive demand references unknown definition"))
      (preemptive_resource_demands c)
  for_each (release_fits (preemptive_resource_reservations c))
      (preemptive_resource_release_intents c)

abbrev pub active_fits :
    List PreemptiveResourceReservation → PreemptiveResourceDefinition → Result (Unit {0})
active_fits reservations definition =
    raise_if
      (ltb definition.capacity
        (length (keep (λ r. str_eq r.resource_name definition.name) reservations)))
      (runtime_error "preemptive resource exceeds durable capacity")

unfoldable pub validate_preemptive_capacities :
    List PreemptiveResourceDefinition → Preemptives → Result (Unit {0})
validate_preemptive_capacities definitions c =
    for_each (active_fits (preemptive_resource_reservations c)) definitions

-- `demand_ids & reservation_ids` is not empty.
unfoldable pub requests_overlap :
    List PreemptiveResourceDemand → List PreemptiveResourceReservation → Bool
requests_overlap [] reservations = false
requests_overlap (d ∷ demands) reservations =
    reserved d.request_id reservations || requests_overlap demands reservations

unfoldable pub validate_request_overlap : Preemptives → Result (Unit {0})
unfolding requests_overlap
validate_request_overlap c =
    raise_if (requests_overlap (preemptive_resource_demands c) (preemptive_resource_reservations c))
      (runtime_error "preemptive requests are both pending and reserved")

unfoldable pub validate_preemption_results :
    List PreemptiveResourceDefinition → Preemptives → Result (Unit {0})
validate_preemption_results definitions c =
    for_each
      (λ r.
        raise_if (not (has r.resource_name definitions))
          (runtime_error "preemption result references unknown definition"))
      (resource_preemption_results c)

unfoldable pub validate_rebuild : Preemptives → Result (Unit {0})
unfolding validate_preemptive_references validate_preemptive_capacities validate_request_overlap
    validate_preemption_results
validate_rebuild c = do
  validate_preemptive_references (preemptive_resource_definitions c) c
  validate_preemptive_capacities (preemptive_resource_definitions c) c
  validate_request_overlap c
  validate_preemption_results (preemptive_resource_definitions c) c

-- One turn of the loop of `_finalize_interrupted_releases`.
unfoldable pub finalize_one :
    PreemptiveResourceReleaseIntent → Preemptives → Result (Unit {0}) × Preemptives
unfolding finalize_release_intent
finalize_one intent c = elim (find intent.reservation_id (preemptive_resource_reservations c)) [
  | none ↦ (ok tt, delete_preemptive_resource_release_intent intent.intent_id c)
  | some reservation ↦ finalize_release_intent intent reservation c
]

-- The loop, which an exception ends.
unfoldable pub finalize_all :
    List PreemptiveResourceReleaseIntent → Preemptives → Result (Unit {0}) × Preemptives
unfolding finalize_one
finalize_all [] c = (ok tt, c)
finalize_all (intent ∷ intents) c =
    let (answer, c') = finalize_one intent c in
    let rest = finalize_all intents c' in elim answer [ ok _ ↦ rest | err e ↦ (err e, c') ]

unfoldable pub finalize_interrupted_releases : Preemptives → Result (Unit {0}) × Preemptives
finalize_interrupted_releases c = finalize_all (preemptive_resource_release_intents c) c

-- The calls of `rebuild_backend`, after it has finalized the interrupted releases.
unfoldable pub rebuild_calls : Preemptives → List Call
rebuild_calls c =
    map (λ d. create_preemptive_resource d.name d.capacity) (preemptive_resource_definitions c)
    ++ map (λ r. request_preemptive_resource r.resource_name r.request_id r.priority false)
        (preemptive_resource_reservations c)
    ++ map submit_demand (preemptive_resource_demands c)

abbrev pub rebuilt : Result (Unit {0}) × Preemptives → Result (List Call × ℕ) × Preemptives
rebuilt (err e, c) = (err e, c)
rebuilt (ok _, c) = (
  ok (
    rebuild_calls c,
    length (preemptive_resource_reservations c) + length (preemptive_resource_demands c),
  ),
  c,
)

-- On the tables; what the manager keeps in memory is cleared first.
unfoldable pub rebuild_tables : Preemptives → Result (List Call × ℕ) × Preemptives
unfolding validate_rebuild finalize_interrupted_releases rebuild_calls
rebuild_tables c = elim (validate_rebuild c) [
  | err e ↦ (err e, c)
  | ok _ ↦ rebuilt (finalize_interrupted_releases c)
]

unfoldable pub rebuild_backend : Manager → Result (List Call × ℕ) × Manager
unfolding rebuild_tables clear_ephemeral_state
rebuild_backend m =
    let (answer, c) = rebuild_tables m.tables in
    (answer, record (clear_ephemeral_state m) { tables = c })
