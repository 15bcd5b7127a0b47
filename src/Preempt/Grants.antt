-- ===== src/Preempt/Grants.antt =====
-- The two ways in which a demand becomes a reservation keep the invariant of the tables.
use sose.Prelude.{
  Bool, Bool-cases, List, Option-cases, Result, String, arith, bind-eq-ok, delete, eq_iff, err,
  false, find, find-sorted, has, inl, inr, leb, length, length-keep, not, ok, plan_cases, raise_if,
  refl, ◌∙◌, str_leb, save, same→eq, sym, some, str_eq, total-sorted, transaction,
  transaction_cases, true, ℕ, ◌<◌, ◌≡◌,
}
use sose.Preempt.Records.{
  PreemptiveResourceDefinition, PreemptiveResourceDemand, PreemptiveResourceReservation,
  PreemptiveResourceReservation-discrete, ResourceLease, ResourcePreemption,
  ResourcePreemptionResult, definition_keyed, demand_keyed, intent_keyed, make_preemption_result,
  make_reservation, reservation_keyed, result_keyed,
}
use sose.Preempt.Tables.{
  Preemptives, delete_preemptive_resource_demand, delete_preemptive_resource_reservation, no_check,
  preemptive_resource_definitions, preemptive_resource_reservations, reservation_leb,
  save_preemptive_resource_reservation, save_resource_preemption_result,
}
use sose.Preempt.Manager.{
  Manager, definition_of, demand_for, displaced_keyed, granted_keyed, leased_keyed, on_tables,
  reservation_for,
}
use sose.Preempt.Commit.{active_in, grant_body, granted, is_releasing, swap_body, swapped}
use sose.Preempt.Grant.{
  commit_normal_grant, paired, preemption_outcome, result_of, successor_of, swap,
  try_commit_normal_grant, try_commit_preemption, within_capacity,
}
use sose.Preempt.Inv.{Inv, active, of_resource}
use sose.Preempt.Invariant.{Granted-Inv, Swapped-Inv}
use sose.Preempt.Keeps.{Kept}

swapped_tables :
    (id : String) (lease : ResourceLease) (gone new : String) (o : Result Bool × Manager)
    → (swapped id lease gone new o).1.tables ≡ o.1.tables
swapped_tables id lease gone new (err e, m) = refl
swapped_tables id lease gone new (ok true, m) = refl
swapped_tables id lease gone new (ok false, m) = refl

granted_tables :
    (id : String) (lease : ResourceLease)
    (o : Result (PreemptiveResourceReservation × Bool) × Manager)
    → (granted id lease o).1.tables ≡ o.1.tables
granted_tables id lease (err e, m) = refl
granted_tables id lease (ok (r, true), m) = refl
granted_tables id lease (ok (r, false), m) = refl

pub length-active_in : (name : String) (c : Preemptives) → length (active_in name c) ≡ active name c
unfolding active preemptive_resource_reservations
length-active_in name c =
    length-keep (λ r. str_eq r.resource_name name) (preemptive_resource_reservations c)
    ∙ total-sorted reservation_leb (of_resource name) c.reservations

definition_of-ok :
    (c : Preemptives) (name : String) (a : PreemptiveResourceDefinition)
    → Inv c
    → definition_of c name ≡ ok a
    → find name c.definitions ≡ some a
unfolding definition_of preemptive_resource_definitions
definition_of-ok c name a v h =
    ground
      (arith, find-sorted (λ x y. str_leb x.name y.name) name c.definitions v.unique_definitions)

module _ (deterministic_id : String → List String → String) where
  swap_body-Inv :
      (d : PreemptiveResourceDemand) (x r : PreemptiveResourceReservation)
      (o : ResourcePreemptionResult) (b : Bool) (c c' : Preemptives)
      → r.request_id ≡ d.request_id
      → r.resource_name ≡ x.resource_name
      → o.resource_name ≡ x.resource_name
      → swap_body d x r o c ≡ ok (b, c')
      → Inv c
      → Inv c'
  unfolding save_preemptive_resource_reservation save_resource_preemption_result
      delete_preemptive_resource_reservation delete_preemptive_resource_demand
  swap_body-Inv d x r o true c c' same_request same_name also h v =
      let there : find x.reservation_id c.reservations ≡ some x = ground (
        arith,
        same→eq PreemptiveResourceReservation-discrete (find x.reservation_id c.reservations) x,
      ) in
      let stored : c' ≡ record c {
        demands = delete d.request_id c.demands;
        reservations = save r (delete x.reservation_id c.reservations);
        results = save o c.results;
      } =
        ground arith in
      rw (stored, sym same_request) (Swapped-Inv x r o c there same_name also v)
  swap_body-Inv d x r o false c c' same_request same_name also h v =
      let kept : c' ≡ c = ground arith in rw kept v

  make_reservation-ok :
      (id : String) (d : PreemptiveResourceDemand) (at : ℕ) (r : PreemptiveResourceReservation)
      → make_reservation id d at ≡ ok r
      → (r.request_id ≡ d.request_id) × (r.resource_name ≡ d.resource_name)
  unfolding make_reservation
  make_reservation-ok id d at r h = (ground arith, ground arith)

  make_preemption_result-ok :
      (id : String) (d : PreemptiveResourceDemand) (x s : PreemptiveResourceReservation) (at : ℕ)
      (o : ResourcePreemptionResult)
      → make_preemption_result id d x s at ≡ ok o
      → o.resource_name ≡ d.resource_name
  unfolding make_preemption_result
  make_preemption_result-ok id d x s at o h = ground arith

  preemption_outcome-ok :
      (d : PreemptiveResourceDemand) (x s : PreemptiveResourceReservation)
      (o : ResourcePreemptionResult) (at got : ℕ)
      → preemption_outcome deterministic_id d x at got ≡ ok (s, o)
      → (s.request_id ≡ d.request_id)
        × (s.resource_name ≡ x.resource_name)
        × (o.resource_name ≡ x.resource_name)
  unfolding preemption_outcome successor_of result_of
  preemption_outcome-ok d x s o at got h =
      let (_, right, rest) =
        bind-eq-ok (raise_if (not (str_eq d.resource_name x.resource_name)) _) _ h in
      let (s', made, rest') = bind-eq-ok (successor_of deterministic_id d got) _ rest in
      let (o', recorded, last) = bind-eq-ok (result_of deterministic_id d x s' at) _ rest' in
      let name : d.resource_name ≡ x.resource_name =
        ground (arith, right, eq_iff d.resource_name x.resource_name) in
      let (ids, names) = make_reservation-ok _ d got s' made in
      let also = make_preemption_result-ok _ d x s' at o' recorded in (cc, cc, cc)

  paired-Inv :
      (id : String) (lease : ResourceLease) (event : ResourcePreemption) (m : Manager)
      → Inv m.tables
      → Kept (paired deterministic_id id lease event m)
  paired-Inv id lease event m v = elim (Option-cases (demand_for m.tables id)) [
    | inl missing ↦ rw (missing, paired) v
    | inr (d, e) ↦ elim (Option-cases (reservation_for m.tables event.request_id)) [
      | inl gone ↦ rw (e, gone, paired) v
      | inr (x, f) ↦
          rw (e, f, paired)
            (plan_cases (λ o. Kept o)
              (preemption_outcome deterministic_id d x event.preempted_at lease.acquired_at)
              (λ err_. (err err_, m)) (swap deterministic_id d x lease id m) (λ y. v)
              λ (s, o) made.
                let (ids, names, also) =
                  preemption_outcome-ok d x s o event.preempted_at lease.acquired_at made in
                transaction_cases
                  (λ t. Kept (swapped id lease x.reservation_id s.reservation_id (on_tables m t)))
                  no_check m.tables (swap_body d x s o) (λ y. v)
                  λ b c' body _.
                    rw
                      (swapped_tables id lease x.reservation_id s.reservation_id
                        (ok b, record m { tables = c' }))
                      (swap_body-Inv d x s o b m.tables c' ids names also body v))
    ]
  ]

  pub try_commit_preemption-Inv :
      (id : String) (m : Manager)
      → Inv m.tables
      → Kept (try_commit_preemption deterministic_id id m)
  unfolding try_commit_preemption
  try_commit_preemption-Inv id m v = elim (Option-cases (find id m.pending_grants)) [
    | inl missing ↦ rw (missing, try_commit_preemption) v
    | inr (g, e) ↦ elim (Option-cases (find id m.pending_preemptions)) [
      | inl gone ↦ rw (e, gone, try_commit_preemption) v
      | inr (x, f) ↦ rw (e, f, try_commit_preemption) (paired-Inv id g.lease x.event m v)
    ]
  ]

  grant_body-Inv :
      (d : PreemptiveResourceDemand) (r s : PreemptiveResourceReservation) (b : Bool)
      (c c' : Preemptives)
      → r.request_id ≡ d.request_id
      → ((a : PreemptiveResourceDefinition)
          → find r.resource_name c.definitions ≡ some a
          → active r.resource_name c < a.capacity)
      → grant_body d r c ≡ ok ((s, b), c')
      → Inv c
      → Inv c'
  unfolding save_preemptive_resource_reservation delete_preemptive_resource_demand
  grant_body-Inv d r s true c c' same_request room h v =
      let known : has r.resource_name c.definitions ≡ true = ground arith in
      let stored : c' ≡ record c {
        demands = delete d.request_id c.demands;
        reservations = save r c.reservations;
      } =
        ground arith in
      rw (stored, sym same_request) (Granted-Inv r c known room v)
  grant_body-Inv d r s false c c' same_request room h v =
      let kept : c' ≡ c = ground arith in rw kept v

  commit_normal_grant-Inv :
      (d : PreemptiveResourceDemand) (lease : ResourceLease) (id : String) (m : Manager)
      → ((a : PreemptiveResourceDefinition)
          → find d.resource_name m.tables.definitions ≡ some a
          → active d.resource_name m.tables < a.capacity)
      → Inv m.tables
      → Kept (commit_normal_grant deterministic_id d lease id m)
  unfolding successor_of
  commit_normal_grant-Inv d lease id m room v =
      plan_cases (λ o. Kept o) (successor_of deterministic_id d lease.acquired_at) (λ e. (err e, m))
        (λ r. granted id lease (on_tables m (transaction no_check (grant_body d r) m.tables)))
        (λ e. v)
        λ r made.
          let (ids, names) = make_reservation-ok _ d lease.acquired_at r made in
          transaction_cases (λ t. Kept (granted id lease (on_tables m t))) no_check m.tables
            (grant_body d r) (λ e. v)
            λ (s, b) c' body _.
              rw (granted_tables id lease (ok (s, b), record m { tables = c' }))
                (grant_body-Inv d r s b m.tables c' ids (rw names room) body v)

  within_capacity-Inv :
      (d : PreemptiveResourceDemand) (lease : ResourceLease) (id : String) (m : Manager)
      (a : PreemptiveResourceDefinition)
      → find d.resource_name m.tables.definitions ≡ some a
      → Inv m.tables
      → Kept (within_capacity deterministic_id d lease id m a)
  within_capacity-Inv d lease id m a defined v =
      elim (Bool-cases (is_releasing d.resource_name m.tables)) [
        | inl releasing ↦ rw (releasing, within_capacity) v
        | inr idle ↦
            elim (Bool-cases (leb a.capacity (length (active_in d.resource_name m.tables)))) [
              | inl full ↦ rw (idle, full, within_capacity) v
              | inr open_ ↦
                  let fits : active d.resource_name m.tables < a.capacity =
                    ground (arith, length-active_in d.resource_name m.tables) in
                  rw (idle, open_, within_capacity)
                    (commit_normal_grant-Inv d lease id m (λ b e. ground (arith, fits, defined, e))
                      v)
            ]
      ]

  pub try_commit_normal_grant-Inv :
      (id : String) (m : Manager)
      → Inv m.tables
      → Kept (try_commit_normal_grant deterministic_id id m)
  unfolding try_commit_normal_grant
  try_commit_normal_grant-Inv id m v = elim (Option-cases (find id m.pending_grants)) [
    | inl missing ↦ rw (missing, try_commit_normal_grant) v
    | inr (g, e) ↦ elim (Option-cases (demand_for m.tables id)) [
      | inl gone ↦ rw (e, gone, try_commit_normal_grant) v
      | inr (d, f) ↦
          rw (e, f, try_commit_normal_grant)
            (plan_cases (λ o. Kept o) (definition_of m.tables d.resource_name) (λ x. (err x, m))
              (within_capacity deterministic_id d g.lease id m) (λ x. v)
              λ a found.
                within_capacity-Inv d g.lease id m a
                  (definition_of-ok m.tables d.resource_name a v found) v)
    ]
  ]
