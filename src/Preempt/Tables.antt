-- ===== src/Preempt/Tables.antt =====
-- The preemptive families of a unit of work (persistence/memory.py), and their sorted reads.
use sose.Prelude.{
  Bool, List, Option, Result, String, [], delete, differs, false, find, has, if◌then◌else◌,
  key_error, ltb, none, not, ok, or_raise, pair_leb, raise_if, save, some, sorted, str_eq, str_leb,
  value_error, ◌&&◌, ◌>>=◌, ◌>>◌, ◌||◌, ◌∷◌,
}
use sose.Preempt.Records.{
  PreemptiveResourceDefinition, PreemptiveResourceDefinition-discrete, PreemptiveResourceDemand,
  PreemptiveResourceDemand-discrete, PreemptiveResourceReleaseIntent,
  PreemptiveResourceReleaseIntent-discrete, PreemptiveResourceReservation, ResourcePreemptionResult,
  ResourcePreemptionResult-discrete, definition_keyed, demand_keyed, intent_keyed,
  reservation_keyed, result_keyed,
}

pub record Preemptives : Type 0 where
  pub definitions : List PreemptiveResourceDefinition
  pub demands : List PreemptiveResourceDemand
  pub reservations : List PreemptiveResourceReservation
  pub release_intents : List PreemptiveResourceReleaseIntent
  pub results : List ResourcePreemptionResult

abbrev pub empty : Preemptives
empty = record {
  definitions = [];
  demands = [];
  reservations = [];
  release_intents = [];
  results = [];
}

unfoldable pub preemptive_resource_definitions : Preemptives → List PreemptiveResourceDefinition
preemptive_resource_definitions c = sorted (λ a b. str_leb a.name b.name) c.definitions

-- The order of `PreemptiveResourceDemand`, whose third field already tells two demands apart.
abbrev pub demand_leb : PreemptiveResourceDemand → PreemptiveResourceDemand → Bool
demand_leb a b =
    ltb a.priority b.priority
    || (not (ltb b.priority a.priority) && pair_leb a.sequence a.request_id b.sequence b.request_id)

unfoldable pub preemptive_resource_demands : Preemptives → List PreemptiveResourceDemand
preemptive_resource_demands c = sorted demand_leb c.demands

-- By (resource_name, sequence, reservation_id).
abbrev pub reservation_leb : PreemptiveResourceReservation → PreemptiveResourceReservation → Bool
reservation_leb a b =
    not (str_leb b.resource_name a.resource_name)
    || (str_leb a.resource_name b.resource_name
        && pair_leb a.sequence a.reservation_id b.sequence b.reservation_id)

unfoldable pub preemptive_resource_reservations : Preemptives → List PreemptiveResourceReservation
preemptive_resource_reservations c = sorted reservation_leb c.reservations

unfoldable pub preemptive_resource_release_intents :
    Preemptives → List PreemptiveResourceReleaseIntent
preemptive_resource_release_intents c =
    sorted (λ a b. str_leb a.intent_id b.intent_id) c.release_intents

unfoldable pub resource_preemption_results : Preemptives → List ResourcePreemptionResult
resource_preemption_results c =
    sorted (λ a b. pair_leb a.sequence a.result_id b.sequence b.result_id) c.results

-- The first reservation of a request.
unfoldable pub reservation_of :
    String → List PreemptiveResourceReservation → Option PreemptiveResourceReservation
reservation_of request_id [] = none
reservation_of request_id (r ∷ rows) =
    if str_eq r.request_id request_id then some r else reservation_of request_id rows

-- `any(reservation.request_id == request_id for reservation in rows)`
unfoldable pub reserved : String → List PreemptiveResourceReservation → Bool
reserved request_id [] = false
reserved request_id (r ∷ rows) = str_eq r.request_id request_id || reserved request_id rows

-- A reservation of the same request with another identity.
unfoldable pub reserved_otherwise :
    PreemptiveResourceReservation → List PreemptiveResourceReservation → Bool
reserved_otherwise new [] = false
reserved_otherwise new (r ∷ rows) =
    (str_eq r.request_id new.request_id && not (str_eq r.reservation_id new.reservation_id))
    || reserved_otherwise new rows

unfoldable pub save_preemptive_resource_definition :
    PreemptiveResourceDefinition → Preemptives → Result Preemptives
unfolding differs
save_preemptive_resource_definition definition c = do
  raise_if
      (differs PreemptiveResourceDefinition-discrete (find definition.name c.definitions)
        definition)
      (value_error "preemptive resource definition already exists")
  ok (record c { definitions = save definition c.definitions })

unfoldable pub save_preemptive_resource_demand :
    PreemptiveResourceDemand → Preemptives → Result Preemptives
unfolding differs
save_preemptive_resource_demand demand c = do
  raise_if (not (has demand.resource_name c.definitions))
      (key_error "unknown preemptive resource definition")
  raise_if (reserved demand.request_id c.reservations)
      (value_error "preemptive resource request already reserved")
  raise_if (differs PreemptiveResourceDemand-discrete (find demand.request_id c.demands) demand)
      (value_error "preemptive resource demand already exists")
  ok (record c { demands = save demand c.demands })

unfoldable pub delete_preemptive_resource_demand : String → Preemptives → Preemptives
delete_preemptive_resource_demand request_id c = record c { demands = delete request_id c.demands }

unfoldable pub save_preemptive_resource_reservation :
    PreemptiveResourceReservation → Preemptives → Result Preemptives
save_preemptive_resource_reservation reservation c = do
  raise_if (not (has reservation.resource_name c.definitions))
      (key_error "unknown preemptive resource definition")
  raise_if (has reservation.request_id c.demands)
      (value_error "preemptive resource request is still pending")
  raise_if (reserved_otherwise reservation c.reservations)
      (value_error "preemptive resource request already reserved")
  ok (record c { reservations = save reservation c.reservations })

unfoldable pub delete_preemptive_resource_reservation : String → Preemptives → Preemptives
delete_preemptive_resource_reservation reservation_id c = record c {
  reservations = delete reservation_id c.reservations;
}

unfoldable pub save_preemptive_resource_release_intent :
    PreemptiveResourceReleaseIntent → Preemptives → Result Preemptives
unfolding differs
save_preemptive_resource_release_intent intent c = do
  raise_if (not (has intent.reservation_id c.reservations))
      (key_error "unknown preemptive resource reservation")
  raise_if
      (differs PreemptiveResourceReleaseIntent-discrete (find intent.intent_id c.release_intents)
        intent)
      (value_error "preemptive resource release intent already exists")
  ok (record c { release_intents = save intent c.release_intents })

unfoldable pub delete_preemptive_resource_release_intent : String → Preemptives → Preemptives
delete_preemptive_resource_release_intent intent_id c = record c {
  release_intents = delete intent_id c.release_intents;
}

unfoldable pub save_resource_preemption_result :
    ResourcePreemptionResult → Preemptives → Result Preemptives
unfolding differs
save_resource_preemption_result result c = do
  successor ←
      or_raise (find result.successor_reservation_id c.reservations)
        (key_error "unknown successor preemptive reservation")
  raise_if (not (str_eq successor.request_id result.preempting_request_id))
      (value_error "preemption result successor does not match request")
  raise_if (has result.displaced_reservation_id c.reservations)
      (value_error "displaced reservation is still active")
  raise_if (differs ResourcePreemptionResult-discrete (find result.result_id c.results) result)
      (value_error "resource preemption result already exists")
  ok (record c { results = save result c.results })

-- `commit` has no check of its own on preemptive resources.
abbrev pub no_check : Preemptives → Result (Unit {0})
no_check c = ok tt
