-- ===== src/Preempt/Handshake.antt =====
-- The two callbacks of a preemption may come in either order.
use sose.Prelude.{
  Bool, Bool-cases, List, Option-cases, Result, String, ap, arith, err, false, find, inl, inr, leb,
  length, none, ok, plan_cases, refl, save, some, str_eq, sym, transaction_cases, true, ◌≡◌, ◌∙◌,
}
use sose.Preempt.Records.{
  PreemptiveResourceDefinition, PreemptiveResourceDemand, PreemptiveResourceReservation,
  ResourceLease, ResourcePreemption, ResourcePreemptionResult, demand_keyed, reservation_keyed,
}
use sose.Preempt.Tables.{
  Preemptives, no_check, save_preemptive_resource_reservation, save_resource_preemption_result,
}
use sose.Preempt.Manager.{
  Manager, definition_of, demand_for, displaced_keyed, granted_keyed, leased_keyed, on_tables,
  reservation_for,
}
use sose.Preempt.Commit.{active_in, is_releasing, swap_body, swapped}
use sose.Preempt.Grant.{
  else_normal, paired, preempted_for, preemption_outcome, record_acquired, record_preempted,
  returned, swap, try_commit, try_commit_normal_grant, try_commit_preemption,
}

-- A demand is blocked where its resource is full.
abbrev pub Full : Preemptives → PreemptiveResourceDemand → Type 0
Full c d =
    (a : PreemptiveResourceDefinition) × (definition_of c d.resource_name ≡ ok a)
    × (leb a.capacity (length (active_in d.resource_name c)) ≡ true)

swap_body-false :
    (d : PreemptiveResourceDemand) (x s : PreemptiveResourceReservation)
    (o : ResourcePreemptionResult) (b : Bool) (c c' : Preemptives)
    → swap_body d x s o c ≡ ok (b, c')
    → b ≡ false
    → c' ≡ c
unfolding save_preemptive_resource_reservation save_resource_preemption_result
swap_body-false d x s o true c c' h f = cc
swap_body-false d x s o false c c' h f = ground arith

module _ (deterministic_id : String → List String → String) where
  -- Where a preemption is not committed and nothing is raised, nothing has changed.
  Idle : Manager → Result Bool × Manager → Type 0
  Idle m o = o.0 ≡ ok false → o.1 ≡ m

  swapped-Idle :
      (id : String) (lease : ResourceLease) (gone new : String) (m : Manager) (b : Bool)
      (c : Preemptives)
      → (b ≡ false → c ≡ m.tables)
      → Idle m (swapped id lease gone new (ok b, record m { tables = c }))
  unfolding Idle
  swapped-Idle id lease gone new m true c h = cc
  swapped-Idle id lease gone new m false c h = λ f. ap (λ t. record m { tables = t }) (h refl)

  paired-Idle :
      (id : String) (lease : ResourceLease) (event : ResourcePreemption) (m : Manager)
      → Idle m (paired deterministic_id id lease event m)
  unfolding Idle
  paired-Idle id lease event m = elim (Option-cases (demand_for m.tables id)) [
    | inl missing ↦ rw (missing, paired) (λ f. refl)
    | inr (d, e) ↦ elim (Option-cases (reservation_for m.tables event.request_id)) [
      | inl gone ↦ rw (e, gone, paired) (λ f. refl)
      | inr (x, f) ↦
          rw (e, f, paired)
            (plan_cases (λ o. o.0 ≡ ok false → o.1 ≡ m)
              (preemption_outcome deterministic_id d x event.preempted_at lease.acquired_at)
              (λ err_. (err err_, m)) (swap deterministic_id d x lease id m) (λ y h. cc)
              λ (s, o) made.
                transaction_cases
                  (λ t. Idle m (swapped id lease x.reservation_id s.reservation_id (on_tables m t)))
                  no_check m.tables (swap_body d x s o) (λ y h. cc)
                  λ b c' body _.
                    swapped-Idle id lease x.reservation_id s.reservation_id m b c'
                      (swap_body-false d x s o b m.tables c' body))
    ]
  ]

  blocked :
      (id : String) (d : PreemptiveResourceDemand) (m : Manager)
      → demand_for m.tables id ≡ some d
      → Full m.tables d
      → try_commit_normal_grant deterministic_id id m ≡ (ok false, m)
  unfolding try_commit_normal_grant
  blocked id d m wanted (a, defined, full) = elim (Option-cases (find id m.pending_grants)) [
    | inl missing ↦ rw (missing, try_commit_normal_grant) refl
    | inr (g, e) ↦ elim (Bool-cases (is_releasing d.resource_name m.tables)) [
      | inl releasing ↦ rw (e, wanted, defined, releasing, try_commit_normal_grant) refl
      | inr idle ↦ rw (e, wanted, defined, idle, full, try_commit_normal_grant) refl
    ]
  ]

  -- Once the preemption is not committed, a blocked demand is not granted either.
  else_blocked :
      (id : String) (d : PreemptiveResourceDemand) (m : Manager) (o : Result Bool × Manager)
      → demand_for m.tables id ≡ some d
      → Full m.tables d
      → Idle m o
      → else_normal deterministic_id id o ≡ o
  unfolding Idle
  else_blocked id d m (err e, m') wanted full idle = refl
  else_blocked id d m (ok true, m') wanted full idle = refl
  else_blocked id d m (ok false, m') wanted full idle = rw (idle refl) (blocked id d m wanted full)

  try_commit_preemption-Idle :
      (id : String) (m : Manager) → Idle m (try_commit_preemption deterministic_id id m)
  unfolding try_commit_preemption Idle
  try_commit_preemption-Idle id m = elim (Option-cases (find id m.pending_grants)) [
    | inl missing ↦ rw (missing, try_commit_preemption) (λ f. refl)
    | inr (g, e) ↦ elim (Option-cases (find id m.pending_preemptions)) [
      | inl gone ↦ rw (e, gone, try_commit_preemption) (λ f. refl)
      | inr (x, f) ↦ rw (e, f, try_commit_preemption) (paired-Idle id g.lease x.event m)
    ]
  ]

  no_event-waits :
      (id : String) (m : Manager)
      → find id m.pending_preemptions ≡ none
      → try_commit_preemption deterministic_id id m ≡ (ok false, m)
  unfolding try_commit_preemption
  no_event-waits id m h = elim (Option-cases (find id m.pending_grants)) [
    | inl missing ↦ rw (missing, try_commit_preemption) refl
    | inr (g, e) ↦ rw (e, h, try_commit_preemption) refl
  ]

  no_grant-waits :
      (id : String) (m : Manager)
      → find id m.pending_grants ≡ none
      → try_commit_preemption deterministic_id id m ≡ (ok false, m)
  unfolding try_commit_preemption
  no_grant-waits id m h = rw (h, try_commit_preemption) refl

  abbrev with_lease : String → ResourceLease → Manager → Manager
  with_lease id lease m = record m {
    pending_grants = save (record { request_id = id; lease = lease }) m.pending_grants;
  }

  abbrev with_event : String → ResourcePreemption → Manager → Manager
  with_event id event m = record m {
    pending_preemptions = save (record { preempted_by = id; event = event }) m.pending_preemptions;
  }

  acquired-tries :
      (id : String) (lease : ResourceLease) (d : PreemptiveResourceDemand) (m : Manager)
      → reservation_for m.tables id ≡ none
      → demand_for m.tables id ≡ some d
      → record_acquired deterministic_id id lease m
        ≡ returned deterministic_id (
            else_normal deterministic_id id
              (try_commit_preemption deterministic_id id (with_lease id lease m)))
  unfolding record_acquired try_commit
  acquired-tries id lease d m new wanted = rw (new, wanted, record_acquired) refl

  preempted-tries :
      (id : String) (event : ResourcePreemption) (x : PreemptiveResourceReservation) (m : Manager)
      → event.preempted_by ≡ some id
      → str_eq id "" ≡ false
      → reservation_for m.tables event.request_id ≡ some x
      → str_eq x.resource_name event.resource_name ≡ true
      → record_preempted deterministic_id event m
        ≡ returned deterministic_id
            (try_commit_preemption deterministic_id id (with_event id event m))
  unfolding record_preempted
  preempted-tries id event x m by named held right =
      simp (by, named, held, right, record_preempted, preempted_for) refl

  -- For a pending request whose resource is full, with nothing yet heard of it, and a notice that it
  -- has displaced a reservation of the notice's resource: the callback of the acquisition and then
  -- the notice of the preemption leave and answer what they do in the other order.
  pub callbacks_commute :
      (id : String) (lease : ResourceLease) (event : ResourcePreemption)
      (d : PreemptiveResourceDemand) (x : PreemptiveResourceReservation) (m : Manager)
      → reservation_for m.tables id ≡ none
      → demand_for m.tables id ≡ some d
      → Full m.tables d
      → find id m.pending_grants ≡ none
      → find id m.pending_preemptions ≡ none
      → event.preempted_by ≡ some id
      → str_eq id "" ≡ false
      → reservation_for m.tables event.request_id ≡ some x
      → str_eq x.resource_name event.resource_name ≡ true
      → record_preempted deterministic_id event (record_acquired deterministic_id id lease m).1
        ≡ record_acquired deterministic_id id lease (record_preempted deterministic_id event m).1
  callbacks_commute id lease event d x m new wanted full no_grant no_event by named held right =
      let with_both = with_event id event (with_lease id lease m) in
      let leased = with_lease id lease m in
      let noticed = with_event id event m in
      let first : (record_acquired deterministic_id id lease m).1 ≡ leased =
        ap (λ o. o.1)
          (acquired-tries id lease d m new wanted
            ∙ ap (λ o. returned deterministic_id (else_normal deterministic_id id o))
                (no_event-waits id leased no_event)
            ∙ ap (λ o. returned deterministic_id o) (blocked id d leased wanted full)) in
      let second : (record_preempted deterministic_id event m).1 ≡ noticed =
        ap (λ o. o.1)
          (preempted-tries id event x m by named held right
            ∙ ap (λ o. returned deterministic_id o) (no_grant-waits id noticed no_grant)) in
      ap (record_preempted deterministic_id event) first
      ∙ preempted-tries id event x leased by named held right
      ∙ ap (λ o. returned deterministic_id o)
          (sym (
            else_blocked id d with_both (try_commit_preemption deterministic_id id with_both) wanted
              full (try_commit_preemption-Idle id with_both)))
      ∙ sym (acquired-tries id lease d noticed new wanted)
      ∙ ap (record_acquired deterministic_id id lease) (sym second)
