-- ===== src/Resource/Tests.antt =====
-- Runs of the resources at concrete inputs, and the theorems at inputs that meet their hypotheses.
use sose.Prelude.{
  same, ℕ_discrete, String-discrete, List, String, [], delete, differs, find, has, max_of, ok, refl,
  save, sorted, true, ◌∷◌, ◌≡◌,
}
use sose.Resource.Records.{
  ResourceDefinition, ResourceDemand, ResourceDemand-discrete, ResourceReservation,
  definition_keyed, demand_keyed, make_demand, reservation_keyed, intent_keyed,
}
use sose.Resource.Tables.{
  Resources, delete_resource_demand, reservation_of, reserved, reserved_otherwise,
  resource_definitions, resource_demands, resource_reservations, save_resource_definition,
  save_resource_demand, save_resource_reservation,
}
use sose.Resource.Manager.{
  commit_grant, next_sequence, plan_request, request, reservation_for, reservation_from,
}
use sose.Resource.Release.{begin_release, finalize_interrupted_releases, release}
use sose.Resource.Exclusive.{Exclusive}
use sose.Resource.System.{Step, defines, empty, grants, requests, run, run-Exclusive}
use sose.Resource.Recovery.{release_recovers}

abbrev plain_id : String → List String → String
plain_id kind parts = kind

abbrev crane : ResourceDefinition
crane = record { name = "crane"; capacity = 1 }

abbrev lift : ResourceDemand
lift = record {
  priority = 5;
  sequence = 1;
  request_id = "r1";
  resource_name = "crane";
  requested_at = 10;
}

abbrev hold : ResourceReservation
hold = record {
  reservation_id = "resource-reservation";
  request_id = "r1";
  resource_name = "crane";
  acquired_at = 12;
  sequence = 1;
}

abbrev defined : Resources
defined = record empty { definitions = crane ∷ [] }

abbrev pending : Resources
pending = record defined { demands = lift ∷ [] }

abbrev holding : Resources
holding = record defined { reservations = hold ∷ [] }

-- A second worker asks again with what it had read before the grant, and is refused.
abbrev history : List Step
history =
    defines crane
    ∷ requests defined "crane" "r1" 10 5
    ∷ grants pending "r1" 12
    ∷ requests defined "crane" "r1" 13 5
    ∷ []

history_holds : run plain_id empty history ≡ holding
unfolding run request plan_request make_demand next_sequence commit_grant reservation_for
    reservation_from reservation_of reserved reserved_otherwise resource_definitions
    resource_demands resource_reservations save_resource_definition save_resource_demand
    save_resource_reservation delete_resource_demand sorted find save delete has max_of differs same
    ResourceDemand-discrete ℕ_discrete String-discrete
history_holds = refl

run-Exclusive_example : Exclusive (run plain_id empty history)
run-Exclusive_example = run-Exclusive plain_id history

release_recovers_example :
    (release plain_id true "resource-reservation" 20 holding ≡ (ok true, defined))
    × (finalize_interrupted_releases (begin_release plain_id hold 20 holding).1 ≡ (ok tt, defined))
unfolding find delete
release_recovers_example =
    release_recovers plain_id holding "resource-reservation" hold 20 (refl, tt) refl refl
