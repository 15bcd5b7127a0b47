-- ===== src/Resource/System.antt =====
-- Histories of the resources: any interleaving of transactions by any number of workers, each with
-- whatever tables it happened to read. A worker that dies takes no further step.
use sose.Prelude.{
  ◌>>=◌, arith, Bool, Bool-cases, List, Option-cases, Result, String, [], err, find, inl, inr, ok,
  plan_cases, refl, same, some, transaction, transaction_cases, ℕ, ◌∷◌, ◌≡◌,
}
use sose.Resource.Records.{
  ResourceDefinition, ResourceReleaseIntent, ResourceReleaseIntent-discrete, ResourceReservation,
  definition_keyed, demand_keyed, intent_keyed, reservation_keyed,
}
use sose.Resource.Tables.{
  Resources, delete_resource_release_intent, no_check, resource_demands, resource_release_intents,
  resource_reservations, save_resource_definition,
}
use sose.Resource.Manager.{
  cancel_body, cancel_pending, commit_grant, demand_body, grant_body, plan_request, request,
  reservation_for, reservation_from, submitted,
}
use sose.Resource.Release.{
  begin_body, begin_release, finalize_body, finalize_one, finalize_release_intent, release_intent,
}
use sose.Resource.Exclusive.{
  Exclusive, begin-Exclusive, cancel-Exclusive, demand-Exclusive, finalize-Exclusive,
  grant-Exclusive,
}

abbrev pub empty : Resources
empty = record { definitions = []; demands = []; reservations = []; release_intents = [] }

pub data Step : Type 0 where
  defines : ResourceDefinition → Step
  requests : Resources → String → String → ℕ → ℕ → Step
  cancels : Resources → Bool → String → Step
  grants : Resources → String → ℕ → Step
  begins : ResourceReservation → ℕ → Step
  finalizes : ResourceReleaseIntent → ResourceReservation → Step
  recovers : ResourceReleaseIntent → Step

abbrev definition_body : ResourceDefinition → Resources → Result (Unit {0} × Resources)
definition_body definition uow = do uow ← save_resource_definition definition uow; ok (tt, uow)

module _ (deterministic_id : String → List String → String) where
  unfoldable pub step : Resources → Step → Resources
  step c (defines definition) = (transaction no_check (definition_body definition) c).1
  step c (requests seen name id at priority) = (request seen name id at priority c).1
  step c (cancels seen cancelled id) = (cancel_pending seen cancelled id c).1
  step c (grants seen id at) = (commit_grant deterministic_id seen id at c).1
  step c (begins reservation now) = (begin_release deterministic_id reservation now c).1
  step c (finalizes intent reservation) = (finalize_release_intent intent reservation c).1
  step c (recovers intent) = (finalize_one intent c).1

  unfoldable pub run : Resources → List Step → Resources
  unfolding step
  run c [] = c
  run c (s ∷ steps) = run (step c s) steps

define-Exclusive :
    (d : ResourceDefinition) (c c' : Resources)
    → definition_body d c ≡ ok (tt, c')
    → Exclusive c
    → Exclusive c'
unfolding save_resource_definition
define-Exclusive d c c' h v =
    let same_demands : c'.demands ≡ c.demands = ground arith in
    let same_reservations : c'.reservations ≡ c.reservations = ground arith in
    record {
      unique = rw same_demands v.unique;
      apart = λ id e g. ground (arith, same_demands, same_reservations, v.apart id e);
    }

finalized-Exclusive :
    (i : ResourceReleaseIntent) (r : ResourceReservation) (c : Resources)
    → Exclusive c
    → Exclusive (finalize_release_intent i r c).1
unfolding finalize_release_intent
finalized-Exclusive i r c v =
    transaction_cases (λ o. Exclusive o.1) no_check c (finalize_body i r) (λ e. v)
      λ u c' body _. finalize-Exclusive i r c c' body v

recovered-Exclusive :
    (i : ResourceReleaseIntent) (c : Resources) → Exclusive c → Exclusive (finalize_one i c).1
unfolding finalize_one delete_resource_release_intent
recovered-Exclusive i c v = elim (Option-cases (find i.intent_id (resource_release_intents c))) [
  | inl gone ↦ rw (gone, finalize_one) v
  | inr (intent, e) ↦ elim (Bool-cases (same ResourceReleaseIntent-discrete (some intent) i)) [
    | inr other ↦ rw (e, other, finalize_one) v
    | inl equal ↦ elim (Option-cases (find i.reservation_id (resource_reservations c))) [
      | inl none_left ↦
          rw (e, equal, none_left, finalize_one) (record { unique = v.unique; apart = v.apart })
      | inr (r, f) ↦ rw (e, equal, f, finalize_one) (finalized-Exclusive intent r c v)
    ]
  ]
]

module _ (deterministic_id : String → List String → String) where
  step-Exclusive : (c : Resources) (s : Step) → Exclusive c → Exclusive (step deterministic_id c s)
  unfolding step request cancel_pending commit_grant begin_release reservation_from
  step-Exclusive c (defines d) v =
      transaction_cases (λ o. Exclusive o.1) no_check c (definition_body d) (λ e. v)
        λ u c' body _. define-Exclusive d c c' body v
  step-Exclusive c (requests seen name id at priority) v =
      plan_cases (λ o. Exclusive o.1) (plan_request seen name id at priority) (λ e. (err e, c))
        (λ d. submitted (transaction no_check (demand_body d) c)) (λ e. v)
        λ d planned.
          transaction_cases (λ o. Exclusive (submitted o).1) no_check c (demand_body d) (λ e. v)
            λ d' c' body _. demand-Exclusive d d' c c' body v
  step-Exclusive c (cancels seen cancelled id) v =
      elim (Option-cases (find id (resource_demands seen))) [
        | inl missing ↦ rw (missing, step, cancel_pending) v
        | inr (d, e) ↦ elim (Bool-cases cancelled) [
          | inl yes_ ↦
              rw (e, yes_, step, cancel_pending)
                (transaction_cases (λ o. Exclusive o.1) no_check c (cancel_body d) (λ x. v)
                  λ b c' body _. cancel-Exclusive d b c c' body v)
          | inr no_ ↦ rw (e, no_, step, cancel_pending) v
        ]
      ]
  step-Exclusive c (grants seen id at) v = elim (Option-cases (reservation_for seen id)) [
    | inr (r, e) ↦ rw (e, step, commit_grant) v
    | inl new ↦ elim (Option-cases (find id (resource_demands seen))) [
      | inl missing ↦ rw (new, missing, step, commit_grant) v
      | inr (d, e) ↦
          rw (new, e, step, commit_grant)
            (transaction_cases (λ o. Exclusive o.1) no_check c
              (grant_body deterministic_id d (reservation_from deterministic_id d at)) (λ x. v)
              λ r c' body _.
                grant-Exclusive deterministic_id d (reservation_from deterministic_id d at) r c c'
                  refl body v)
    ]
  ]
  step-Exclusive c (begins r now) v =
      transaction_cases (λ o. Exclusive o.1) no_check c
        (begin_body deterministic_id r (release_intent deterministic_id r now)) (λ e. v)
        λ b c' body _.
          begin-Exclusive deterministic_id r (release_intent deterministic_id r now) b c c' body v
  step-Exclusive c (finalizes i r) v = finalized-Exclusive i r c v
  step-Exclusive c (recovers i) v = recovered-Exclusive i c v

  runs-Exclusive :
      (c : Resources) (steps : List Step) → Exclusive c → Exclusive (run deterministic_id c steps)
  unfolding run
  runs-Exclusive c [] v = v
  runs-Exclusive c (s ∷ steps) v =
      runs-Exclusive (step deterministic_id c s) steps (step-Exclusive c s v)

  empty-Exclusive : Exclusive empty
  unfolding find
  empty-Exclusive = record { unique = tt; apart = λ id d e. cc }

  -- After any history of definitions, requests, cancellations, grants, releases and recoveries by
  -- any number of workers, however stale the tables that each has read, demands have distinct
  -- identities and no request is both pending and reserved.
  pub run-Exclusive : (steps : List Step) → Exclusive (run deterministic_id empty steps)
  run-Exclusive steps = runs-Exclusive empty steps empty-Exclusive
