-- ===== src/Preempt/Invariant.antt =====
-- The invariant of the preemptive tables, and that each transaction keeps it.
use sose.Prelude.{
  List, String, Unique-delete, Unique-save, arith, delete, differs, eq_iff, eq_refl, false, find,
  find-delete, find-save, has, none, refl, save, some, str_eq, total-delete, total-delete-≤,
  total-eq-zero, total-save-≤, true, ◌<◌, ◌≡◌, ◌∷◌, [],
}
use sose.Preempt.Records.{
  PreemptiveResourceDefinition, PreemptiveResourceDefinition-discrete, PreemptiveResourceDemand,
  PreemptiveResourceReleaseIntent, PreemptiveResourceReservation, ResourcePreemptionResult,
  definition_keyed, demand_keyed, intent_keyed, reservation_keyed, result_keyed,
}
use sose.Preempt.Tables.{Preemptives, empty, reserved}
use sose.Preempt.Inv.{of_resource, active, Inv}

pub empty-Inv : Inv empty
unfolding find
empty-Inv = record {
  unique_definitions = tt;
  unique_demands = tt;
  unique_reservations = tt;
  unique_results = tt;
  apart = λ id d e. cc;
  demand_known = λ id d e. cc;
  reservation_known = λ id r e. cc;
  result_known = λ id r e. cc;
  bounded = λ name d e. cc;
}

reserved-save :
    (id : String) (r : PreemptiveResourceReservation) (rows : List PreemptiveResourceReservation)
    → str_eq r.request_id id ≡ false
    → reserved id rows ≡ false
    → reserved id (save r rows) ≡ false
unfolding reserved save
reserved-save id r [] h g = ground arith
reserved-save id r (x ∷ rows) h g = ground (arith, reserved-save id r rows)

reserved-delete :
    (id key : String) (rows : List PreemptiveResourceReservation)
    → reserved id rows ≡ false
    → reserved id (delete key rows) ≡ false
unfolding reserved delete
reserved-delete id key [] g = refl
reserved-delete id key (x ∷ rows) g = ground (arith, reserved-delete id key rows)

-- A defined resource stays defined, with its capacity.
has-save_definition :
    (name : String) (d : PreemptiveResourceDefinition) (rows : List PreemptiveResourceDefinition)
    → has name rows ≡ true
    → has name (save d rows) ≡ true
unfolding has
has-save_definition name d rows h = ground (arith, find-save name d rows)

-- A resource that is not defined has no reservation.
active_unknown :
    (name : String) (c : Preemptives) → Inv c → find name c.definitions ≡ none → active name c ≡ 0
unfolding active has
active_unknown name c v h =
    total-eq-zero (of_resource name) c.reservations v.unique_reservations
      λ id r e. ground (arith, h, eq_iff r.resource_name name, v.reservation_known id r e)

pub Defined-Inv :
    (d : PreemptiveResourceDefinition) (c : Preemptives)
    → differs PreemptiveResourceDefinition-discrete (find d.name c.definitions) d ≡ false
    → Inv c
    → Inv (record c { definitions = save d c.definitions })
unfolding differs active
Defined-Inv d c h v = record {
  unique_definitions = Unique-save d c.definitions v.unique_definitions;
  unique_demands = v.unique_demands;
  unique_reservations = v.unique_reservations;
  unique_results = v.unique_results;
  apart = v.apart;
  demand_known =
      λ id x e. has-save_definition x.resource_name d c.definitions (v.demand_known id x e);
  reservation_known =
      λ id x e. has-save_definition x.resource_name d c.definitions (v.reservation_known id x e);
  result_known =
      λ id x e. has-save_definition x.resource_name d c.definitions (v.result_known id x e);
  bounded = λ name x e. ground (
    arith,
    find-save name d c.definitions,
    eq_iff d.name name,
    h,
    active_unknown name c v,
    v.bounded name x,
  );
}

pub Asked-Inv :
    (d : PreemptiveResourceDemand) (c : Preemptives)
    → has d.resource_name c.definitions ≡ true
    → reserved d.request_id c.reservations ≡ false
    → Inv c
    → Inv (record c { demands = save d c.demands })
unfolding active
Asked-Inv d c known free v = record {
  unique_definitions = v.unique_definitions;
  unique_demands = Unique-save d c.demands v.unique_demands;
  unique_reservations = v.unique_reservations;
  unique_results = v.unique_results;
  apart = λ id x e.
      ground (arith, find-save id d c.demands, eq_iff d.request_id id, free, v.apart id x);
  demand_known = λ id x e. ground (arith, find-save id d c.demands, known, v.demand_known id x);
  reservation_known = v.reservation_known;
  result_known = v.result_known;
  bounded = v.bounded;
}

pub Cancelled-Inv :
    (id : String) (c : Preemptives) → Inv c → Inv (record c { demands = delete id c.demands })
unfolding active
Cancelled-Inv gone c v = record {
  unique_definitions = v.unique_definitions;
  unique_demands = Unique-delete gone c.demands v.unique_demands;
  unique_reservations = v.unique_reservations;
  unique_results = v.unique_results;
  apart = λ id x e. ground (arith, find-delete id gone c.demands, v.apart id x);
  demand_known = λ id x e. ground (arith, find-delete id gone c.demands, v.demand_known id x);
  reservation_known = v.reservation_known;
  result_known = v.result_known;
  bounded = v.bounded;
}

pub Freed-Inv :
    (id : String) (c : Preemptives)
    → Inv c
    → Inv (record c { reservations = delete id c.reservations })
unfolding active
Freed-Inv gone c v = record {
  unique_definitions = v.unique_definitions;
  unique_demands = v.unique_demands;
  unique_reservations = Unique-delete gone c.reservations v.unique_reservations;
  unique_results = v.unique_results;
  apart = λ id x e. ground (arith, reserved-delete id gone c.reservations, v.apart id x);
  demand_known = v.demand_known;
  reservation_known =
      λ id x e. ground (arith, find-delete id gone c.reservations, v.reservation_known id x);
  result_known = v.result_known;
  bounded = λ name x e.
      omega (arith, total-delete-≤ (of_resource name) gone c.reservations, v.bounded name x e);
}

-- A demand becomes a reservation, where there is room for it.
pub Granted-Inv :
    (r : PreemptiveResourceReservation) (c : Preemptives)
    → has r.resource_name c.definitions ≡ true
    → ((d : PreemptiveResourceDefinition)
        → find r.resource_name c.definitions ≡ some d
        → active r.resource_name c < d.capacity)
    → Inv c
    → Inv
        (record c { demands = delete r.request_id c.demands; reservations = save r c.reservations })
unfolding active
Granted-Inv r c known room v = record {
  unique_definitions = v.unique_definitions;
  unique_demands = Unique-delete r.request_id c.demands v.unique_demands;
  unique_reservations = Unique-save r c.reservations v.unique_reservations;
  unique_results = v.unique_results;
  apart = λ id x e. ground (
    arith,
    find-delete id r.request_id c.demands,
    eq_iff r.request_id id,
    v.apart id x,
    reserved-save id r c.reservations,
  );
  demand_known =
      λ id x e. ground (arith, find-delete id r.request_id c.demands, v.demand_known id x);
  reservation_known =
      λ id x e. ground (arith, find-save id r c.reservations, known, v.reservation_known id x);
  result_known = v.result_known;
  bounded = λ name x e. ground (
    arith,
    total-save-≤ (of_resource name) r c.reservations,
    eq_iff r.resource_name name,
    room x,
    v.bounded name x,
  );
}

pub Recorded-Inv :
    (o : ResourcePreemptionResult) (c : Preemptives)
    → has o.resource_name c.definitions ≡ true
    → Inv c
    → Inv (record c { results = save o c.results })
unfolding active
Recorded-Inv o c known v = record {
  unique_definitions = v.unique_definitions;
  unique_demands = v.unique_demands;
  unique_reservations = v.unique_reservations;
  unique_results = Unique-save o c.results v.unique_results;
  apart = v.apart;
  demand_known = v.demand_known;
  reservation_known = v.reservation_known;
  result_known = λ id x e. ground (arith, find-save id o c.results, known, v.result_known id x);
  bounded = v.bounded;
}

-- The invariant says nothing of the releases in progress.
pub Marked-Inv :
    (intents : List PreemptiveResourceReleaseIntent) (c : Preemptives)
    → Inv c
    → Inv (record c { release_intents = intents })
unfolding active
Marked-Inv intents c v = record {
  unique_definitions = v.unique_definitions;
  unique_demands = v.unique_demands;
  unique_reservations = v.unique_reservations;
  unique_results = v.unique_results;
  apart = v.apart;
  demand_known = v.demand_known;
  reservation_known = v.reservation_known;
  result_known = v.result_known;
  bounded = v.bounded;
}

-- The successor takes the place of the displaced reservation.
pub Swapped-Inv :
    (x r : PreemptiveResourceReservation) (o : ResourcePreemptionResult) (c : Preemptives)
    → find x.reservation_id c.reservations ≡ some x
    → r.resource_name ≡ x.resource_name
    → o.resource_name ≡ x.resource_name
    → Inv c
    → Inv (record c {
      demands = delete r.request_id c.demands;
      reservations = save r (delete x.reservation_id c.reservations);
      results = save o c.results;
    })
unfolding active
Swapped-Inv x r o c there same also v =
    let known = v.reservation_known x.reservation_id x there in
    let freed = record c { reservations = delete x.reservation_id c.reservations } in
    let room : (d : PreemptiveResourceDefinition)
        → find r.resource_name c.definitions ≡ some d
        → active r.resource_name freed < d.capacity =
      λ d e. ground (
        arith,
        same,
        eq_refl x.resource_name,
        total-delete (of_resource x.resource_name) x.reservation_id c.reservations x there,
        v.bounded r.resource_name d e,
      ) in
    Recorded-Inv o _ (rw also known)
      (Granted-Inv r freed (rw same known) room (Freed-Inv x.reservation_id c v))
