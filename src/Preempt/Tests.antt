-- ===== src/Preempt/Tests.antt =====
-- Runs of the preemptive manager at concrete inputs, and the theorems at inputs that meet their
-- hypotheses.
use sose.Prelude.{
  Error, List, String, String-discrete, [], delete, differs, err, find, has, keep, max_of, ok, refl,
  same, save, some, sorted, true, ℕ_discrete, ◌∷◌, ◌≡◌,
}
use sose.Preempt.Records.{
  PreemptiveResourceDemand, PreemptiveResourceDefinition, PreemptiveResourceDemand-discrete,
  PreemptiveResourceReleaseIntent, PreemptiveResourceReservation,
  PreemptiveResourceReservation-discrete, ResourceLease, ResourcePreemption, definition_keyed,
  demand_keyed, intent_keyed, make_demand, make_preemption_result, make_reservation,
  reservation_keyed, result_keyed,
}
use sose.Preempt.Tables.{
  delete_preemptive_resource_demand, delete_preemptive_resource_reservation,
  preemptive_resource_definitions, preemptive_resource_demands, preemptive_resource_release_intents,
  preemptive_resource_reservations, reservation_of, reserved, reserved_otherwise,
  resource_preemption_results, save_preemptive_resource_definition, save_preemptive_resource_demand,
  save_preemptive_resource_release_intent, save_preemptive_resource_reservation,
  save_resource_preemption_result,
}
use sose.Preempt.Manager.{
  Manager, clear_ephemeral_state, define, definition_of, demand_for, displaced_keyed, granted_keyed,
  leased_keyed, next_sequence, plan_request, request, request_exists, reservation_for,
}
use sose.Preempt.Grant.{
  preemption_outcome, record_acquired, record_preempted, result_of, successor_of, try_commit,
  try_commit_normal_grant, try_commit_preemption,
}
use sose.Preempt.Release.{begin_release, release_intent}
use sose.Preempt.Rebuild.{rebuild_backend, validate_rebuild}
use sose.Preempt.Inv.{Inv}
use sose.Preempt.System.{
  Step, acquires, begins, crashes, defines, preempt_run-Inv, preempts, requests, run, started, step,
}
use sose.Preempt.Handshake.{callbacks_commute}
use sose.Preempt.Recovery.{rebuild_dangling, restart_valid}

-- The last part of a scope stands for its identity.
abbrev last_part : String → List String → String
last_part kind [] = kind
last_part kind (part ∷ parts) = last_part part parts

abbrev dock : PreemptiveResourceDefinition
dock = record { name = "dock"; capacity = 1 }

abbrev a_lease : ResourceLease
a_lease = record { lease_id = "l1"; request_id = "a"; resource_name = "dock"; acquired_at = 2 }

abbrev b_lease : ResourceLease
b_lease = record { lease_id = "l2"; request_id = "b"; resource_name = "dock"; acquired_at = 4 }

abbrev a_lost : ResourcePreemption
a_lost = record {
  lease_id = "l1";
  request_id = "a";
  resource_name = "dock";
  preempted_at = 4;
  preempted_by = some "b";
}

abbrev a_holds : PreemptiveResourceReservation
a_holds = record {
  reservation_id = "a";
  request_id = "a";
  resource_name = "dock";
  acquired_at = 2;
  priority = 5;
  sequence = 1;
}

abbrev b_holds : PreemptiveResourceReservation
b_holds = record {
  reservation_id = "b";
  request_id = "b";
  resource_name = "dock";
  acquired_at = 4;
  priority = 1;
  sequence = 2;
}

abbrev a_leaves : PreemptiveResourceReleaseIntent
a_leaves = record {
  intent_id = "a";
  reservation_id = "a";
  resource_name = "dock";
  requested_at = 3;
}

-- The request `b` displaces `a` while the release of `a` is in progress.
abbrev overtaken : List Step
overtaken =
    defines dock
    ∷ requests "dock" "a" 1 5 true
    ∷ acquires "a" a_lease
    ∷ requests "dock" "b" 3 1 true
    ∷ begins a_holds 3
    ∷ acquires "b" b_lease
    ∷ preempts a_lost
    ∷ []

abbrev left_behind : Manager
left_behind = record {
  tables = record {
    definitions = dock ∷ [];
    demands = [];
    reservations = b_holds ∷ [];
    release_intents = a_leaves ∷ [];
    results =
        record {
          result_id = "b";
          resource_name = "dock";
          displaced_reservation_id = "a";
          displaced_request_id = "a";
          preempting_request_id = "b";
          successor_reservation_id = "b";
          preempted_at = 4;
          sequence = 2;
        }
        ∷ [];
  };
  backend_leases = record { reservation_id = "b"; lease = b_lease } ∷ [];
  pending_grants = [];
  pending_preemptions = [];
}

overtakes : run last_part started overtaken ≡ left_behind
unfolding run step define request plan_request make_demand definition_of request_exists
    next_sequence record_acquired record_preempted try_commit try_commit_preemption
    try_commit_normal_grant preemption_outcome successor_of result_of make_reservation
    make_preemption_result begin_release release_intent reservation_for demand_for
    save_preemptive_resource_definition save_preemptive_resource_demand
    save_preemptive_resource_reservation save_preemptive_resource_release_intent
    save_resource_preemption_result delete_preemptive_resource_demand
    delete_preemptive_resource_reservation preemptive_resource_definitions
    preemptive_resource_demands preemptive_resource_reservations preemptive_resource_release_intents
    resource_preemption_results reservation_of reserved reserved_otherwise sorted find save delete
    has keep max_of differs same PreemptiveResourceDemand-discrete
    PreemptiveResourceReservation-discrete String-discrete ℕ_discrete
overtakes = refl

preempt_run-Inv_example : Inv (run last_part started overtaken).tables
preempt_run-Inv_example = preempt_run-Inv last_part overtaken

rebuild_dangling_example :
    (e : Error) × (rebuild_backend left_behind ≡ (err e, clear_ephemeral_state left_behind))
unfolding preemptive_resource_release_intents preemptive_resource_reservations sorted find
rebuild_dangling_example = rebuild_dangling left_behind a_leaves refl refl

abbrev crashed : List Step
crashed =
    defines dock
    ∷ requests "dock" "a" 1 5 true
    ∷ acquires "a" a_lease
    ∷ begins a_holds 3
    ∷ crashes
    ∷ []

restart_valid_example : validate_rebuild (run last_part started crashed).tables ≡ ok tt
unfolding run step define request plan_request make_demand definition_of request_exists
    next_sequence record_acquired try_commit try_commit_preemption try_commit_normal_grant
    successor_of make_reservation reservation_for demand_for clear_ephemeral_state begin_release
    release_intent save_preemptive_resource_release_intent PreemptiveResourceReservation-discrete
    save_preemptive_resource_definition save_preemptive_resource_demand
    save_preemptive_resource_reservation delete_preemptive_resource_demand
    preemptive_resource_definitions preemptive_resource_demands preemptive_resource_reservations
    preemptive_resource_release_intents resource_preemption_results reservation_of reserved
    reserved_otherwise sorted find save delete has keep max_of differs same
    PreemptiveResourceDemand-discrete String-discrete ℕ_discrete
restart_valid_example = restart_valid last_part crashed (refl, tt)

abbrev b_asks : PreemptiveResourceDemand
b_asks = record {
  priority = 1;
  sequence = 2;
  request_id = "b";
  resource_name = "dock";
  preempt = true;
  requested_at = 3;
}

abbrev b_waits : Manager
b_waits = record {
  tables = record {
    definitions = dock ∷ [];
    demands = b_asks ∷ [];
    reservations = a_holds ∷ [];
    release_intents = [];
    results = [];
  };
  backend_leases = record { reservation_id = "a"; lease = a_lease } ∷ [];
  pending_grants = [];
  pending_preemptions = [];
}

callbacks_commute_example :
    record_preempted last_part a_lost (record_acquired last_part "b" b_lease b_waits).1
    ≡ record_acquired last_part "b" b_lease (record_preempted last_part a_lost b_waits).1
unfolding reservation_for demand_for definition_of preemptive_resource_definitions
    preemptive_resource_demands preemptive_resource_reservations reservation_of sorted find keep
callbacks_commute_example =
    callbacks_commute last_part "b" b_lease a_lost b_asks a_holds b_waits refl refl
      (dock, refl, refl) refl refl refl refl refl refl

-- A backend that forgets its notices, and then restarts.
abbrev forgets : Manager → Manager
forgets m = record m { pending_preemptions = [] }
