-- ===== src/Resource/Tables.antt =====
-- The resource families of a unit of work (persistence/memory.py), and their sorted reads.
use sose.Prelude.{
  Bool, List, Option, Result, String, [], delete, differs, false, find, has, if◌then◌else◌,
  key_error, ltb, none, not, ok, pair_leb, raise_if, save, some, sorted, str_eq, str_leb,
  value_error, ◌&&◌, ◌>>◌, ◌||◌, ◌∷◌,
}
use sose.Resource.Records.{
  ResourceDefinition, ResourceDefinition-discrete, ResourceDemand, ResourceDemand-discrete,
  ResourceReleaseIntent, ResourceReleaseIntent-discrete, ResourceReservation, definition_keyed,
  demand_keyed, intent_keyed, reservation_keyed,
}

pub record Resources : Type 0 where
  pub definitions : List ResourceDefinition
  pub demands : List ResourceDemand
  pub reservations : List ResourceReservation
  pub release_intents : List ResourceReleaseIntent

unfoldable pub resource_definitions : Resources → List ResourceDefinition
resource_definitions c = sorted (λ a b. str_leb a.name b.name) c.definitions

-- The order of `ResourceDemand`, whose third field already tells two demands apart.
abbrev demand_leb : ResourceDemand → ResourceDemand → Bool
demand_leb a b =
    ltb a.priority b.priority
    || (not (ltb b.priority a.priority) && pair_leb a.sequence a.request_id b.sequence b.request_id)

unfoldable pub resource_demands : Resources → List ResourceDemand
resource_demands c = sorted demand_leb c.demands

unfoldable pub resource_reservations : Resources → List ResourceReservation
resource_reservations c = sorted (λ a b. str_leb a.reservation_id b.reservation_id) c.reservations

unfoldable pub resource_release_intents : Resources → List ResourceReleaseIntent
resource_release_intents c = sorted (λ a b. str_leb a.intent_id b.intent_id) c.release_intents

-- The first reservation of a request.
unfoldable pub reservation_of : String → List ResourceReservation → Option ResourceReservation
reservation_of request_id [] = none
reservation_of request_id (r ∷ rows) =
    if str_eq r.request_id request_id then some r else reservation_of request_id rows

-- `any(reservation.request_id == request_id for reservation in rows)`
unfoldable pub reserved : String → List ResourceReservation → Bool
reserved request_id [] = false
reserved request_id (r ∷ rows) = str_eq r.request_id request_id || reserved request_id rows

-- A reservation of the same request with another identity.
unfoldable pub reserved_otherwise : ResourceReservation → List ResourceReservation → Bool
reserved_otherwise new [] = false
reserved_otherwise new (r ∷ rows) =
    (str_eq r.request_id new.request_id && not (str_eq r.reservation_id new.reservation_id))
    || reserved_otherwise new rows

unfoldable pub save_resource_definition : ResourceDefinition → Resources → Result Resources
unfolding differs
save_resource_definition definition c = do
  raise_if (differs ResourceDefinition-discrete (find definition.name c.definitions) definition)
      (value_error "resource definition already exists")
  ok (record c { definitions = save definition c.definitions })

unfoldable pub save_resource_demand : ResourceDemand → Resources → Result Resources
unfolding differs
save_resource_demand demand c = do
  raise_if (not (has demand.resource_name c.definitions)) (key_error "unknown resource definition")
  raise_if (reserved demand.request_id c.reservations)
      (value_error "resource request already reserved")
  raise_if (differs ResourceDemand-discrete (find demand.request_id c.demands) demand)
      (value_error "resource demand already exists")
  ok (record c { demands = save demand c.demands })

unfoldable pub delete_resource_demand : String → Resources → Resources
delete_resource_demand request_id c = record c { demands = delete request_id c.demands }

unfoldable pub save_resource_reservation : ResourceReservation → Resources → Result Resources
save_resource_reservation reservation c = do
  raise_if (not (has reservation.resource_name c.definitions))
      (key_error "unknown resource definition")
  raise_if (has reservation.request_id c.demands) (value_error "resource request is still pending")
  raise_if (reserved_otherwise reservation c.reservations)
      (value_error "resource request already reserved")
  ok (record c { reservations = save reservation c.reservations })

unfoldable pub delete_resource_reservation : String → Resources → Resources
delete_resource_reservation reservation_id c = record c {
  reservations = delete reservation_id c.reservations;
}

unfoldable pub save_resource_release_intent : ResourceReleaseIntent → Resources → Result Resources
unfolding differs
save_resource_release_intent intent c = do
  raise_if (not (has intent.reservation_id c.reservations))
      (key_error "unknown resource reservation")
  raise_if (differs ResourceReleaseIntent-discrete (find intent.intent_id c.release_intents) intent)
      (value_error "resource release intent already exists")
  ok (record c { release_intents = save intent c.release_intents })

unfoldable pub delete_resource_release_intent : String → Resources → Resources
delete_resource_release_intent intent_id c = record c {
  release_intents = delete intent_id c.release_intents;
}

-- `commit` has no check of its own on resources.
abbrev pub no_check : Resources → Result (Unit {0})
no_check c = ok tt
