-- ===== src/Preempt/Inv.antt =====
-- The invariant of the preemptive tables.
use sose.Prelude.{
  String, Unique, false, find, has, if◌then◌else◌, some, str_eq, total, true, ℕ, ◌≡◌, ◌≤◌,
}
use sose.Preempt.Records.{
  PreemptiveResourceDefinition, PreemptiveResourceDemand, PreemptiveResourceReservation,
  ResourcePreemptionResult, definition_keyed, demand_keyed, intent_keyed, reservation_keyed,
  result_keyed,
}
use sose.Preempt.Tables.{Preemptives, reserved}

abbrev pub of_resource : String → PreemptiveResourceReservation → ℕ
of_resource name r = if str_eq r.resource_name name then 1 else 0

-- The number of reservations of a resource.
unfoldable pub active : String → Preemptives → ℕ
active name c = total (of_resource name) c.reservations

-- Identities are distinct; no request is both pending and reserved; every row names a defined
-- resource; and no resource has more reservations than its capacity.
pub record Inv (c : Preemptives) : Type 0 where
  pub unique_definitions : Unique c.definitions
  pub unique_demands : Unique c.demands
  pub unique_reservations : Unique c.reservations
  pub unique_results : Unique c.results
  pub apart :
      (id : String) (d : PreemptiveResourceDemand)
      → find id c.demands ≡ some d
      → reserved id c.reservations ≡ false
  pub demand_known :
      (id : String) (d : PreemptiveResourceDemand)
      → find id c.demands ≡ some d
      → has d.resource_name c.definitions ≡ true
  pub reservation_known :
      (id : String) (r : PreemptiveResourceReservation)
      → find id c.reservations ≡ some r
      → has r.resource_name c.definitions ≡ true
  pub result_known :
      (id : String) (r : ResourcePreemptionResult)
      → find id c.results ≡ some r
      → has r.resource_name c.definitions ≡ true
  pub bounded :
      (name : String) (d : PreemptiveResourceDefinition)
      → find name c.definitions ≡ some d
      → active name c ≤ d.capacity
