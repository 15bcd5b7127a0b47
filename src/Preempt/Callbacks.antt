-- ===== src/Preempt/Callbacks.antt =====
-- The backend's callbacks, releases and recovery keep the invariant of the tables.
use sose.Prelude.{
  Bool, Bool-cases, List, Option-cases, Result, String, [], arith, delete, err, find, inl, inr,
  true, false, ok, plan_cases, refl, save, str_eq, transaction_cases, ℕ, ◌≡◌, ◌∷◌,
}
use sose.Preempt.Records.{
  PreemptiveResourceReleaseIntent, PreemptiveResourceReservation, ResourceLease, ResourcePreemption,
  intent_keyed, reservation_keyed,
}
use sose.Preempt.Tables.{
  Preemptives, delete_preemptive_resource_release_intent, delete_preemptive_resource_reservation,
  no_check, preemptive_resource_release_intents, preemptive_resource_reservations,
  save_preemptive_resource_release_intent,
}
use sose.Preempt.Manager.{
  Granted, Manager, demand_for, displaced_keyed, granted_keyed, leased_keyed, on_tables,
  reservation_for,
}
use sose.Preempt.Grant.{
  else_normal, preempted_for, record_acquired, record_preempted, returned, try_commit,
  try_commit_preemption,
}
use sose.Preempt.Release.{
  begin_body, begin_release, finalize_body, finalize_release_intent, finalized, finish_release,
  reconcile, reconcile_pending_grants, reconciled, release_intent,
}
use sose.Preempt.Rebuild.{
  finalize_all, finalize_interrupted_releases, finalize_one, rebuild_tables, rebuilt,
  validate_rebuild,
}
use sose.Preempt.Inv.{Inv}
use sose.Preempt.Invariant.{Freed-Inv, Marked-Inv}
use sose.Preempt.Keeps.{Kept}
use sose.Preempt.Grants.{try_commit_normal_grant-Inv, try_commit_preemption-Inv}

finalize_body-Inv :
    (i : PreemptiveResourceReleaseIntent) (r : PreemptiveResourceReservation) (c c' : Preemptives)
    → finalize_body i r c ≡ ok (tt, c')
    → Inv c
    → Inv c'
unfolding delete_preemptive_resource_release_intent delete_preemptive_resource_reservation
finalize_body-Inv i r c c' h v =
    let stored : c' ≡ record c {
      reservations = delete r.reservation_id c.reservations;
      release_intents = delete i.intent_id c.release_intents;
    } =
      ground arith in
    rw stored (Marked-Inv (delete i.intent_id c.release_intents) _ (Freed-Inv r.reservation_id c v))

finalize_release_intent-Inv :
    (i : PreemptiveResourceReleaseIntent) (r : PreemptiveResourceReservation) (c : Preemptives)
    → Inv c
    → Inv (finalize_release_intent i r c).1
unfolding finalize_release_intent
finalize_release_intent-Inv i r c v =
    transaction_cases (λ o. Inv o.1) no_check c (finalize_body i r) (λ e. v)
      λ u c' body _. finalize_body-Inv i r c c' body v

finalize_one-Inv :
    (i : PreemptiveResourceReleaseIntent) (c : Preemptives) → Inv c → Inv (finalize_one i c).1
unfolding finalize_one delete_preemptive_resource_release_intent
finalize_one-Inv i c v =
    elim (Option-cases (find i.reservation_id (preemptive_resource_reservations c))) [
      | inl gone ↦ rw (gone, finalize_one) (Marked-Inv (delete i.intent_id c.release_intents) c v)
      | inr (r, e) ↦ rw (e, finalize_one) (finalize_release_intent-Inv i r c v)
    ]

finalize_all-Inv :
    (intents : List PreemptiveResourceReleaseIntent) (c : Preemptives)
    → Inv c
    → Inv (finalize_all intents c).1
unfolding finalize_all
finalize_all-Inv [] c v = v
finalize_all-Inv (i ∷ intents) c v =
    let v' = finalize_one-Inv i c v in
    let rest = finalize_all-Inv intents (finalize_one i c).1 v' in
    plan_cases (λ o. Inv o.1) (finalize_one i c).0 (λ e. (err e, (finalize_one i c).1))
      (λ done. finalize_all intents (finalize_one i c).1) (λ e. v') (λ done f. rest)

rebuilt_same : (o : Result (Unit {0}) × Preemptives) → (rebuilt o).1 ≡ o.1
rebuilt_same (ok _, c) = refl
rebuilt_same (err e, c) = refl

pub rebuild_tables-Inv : (c : Preemptives) → Inv c → Inv (rebuild_tables c).1
unfolding rebuild_tables finalize_interrupted_releases
rebuild_tables-Inv c v =
    plan_cases (λ o. Inv o.1) (validate_rebuild c) (λ e. (err e, c))
      (λ done. rebuilt (finalize_interrupted_releases c)) (λ e. v)
      λ done f. rw rebuilt_same (finalize_all-Inv (preemptive_resource_release_intents c) c v)

module _ (deterministic_id : String → List String → String) where
  returned_tables {ℓ} :
      {A : Type ℓ} (o : Result A × Manager) → (returned deterministic_id o).1 ≡ o.1
  returned_tables (err e, m) = refl
  returned_tables (ok a, m) = refl

  else_normal-Inv :
      (id : String) (o : Result Bool × Manager) → Kept o → Kept (else_normal deterministic_id id o)
  else_normal-Inv id (err e, m) v = v
  else_normal-Inv id (ok true, m) v = v
  else_normal-Inv id (ok false, m) v = try_commit_normal_grant-Inv deterministic_id id m v

  try_commit-Inv :
      (id : String) (m : Manager) → Inv m.tables → Kept (try_commit deterministic_id id m)
  unfolding try_commit
  try_commit-Inv id m v =
      else_normal-Inv id (try_commit_preemption deterministic_id id m)
        (try_commit_preemption-Inv deterministic_id id m v)

  pub record_acquired-Inv :
      (id : String) (lease : ResourceLease) (m : Manager)
      → Inv m.tables
      → Kept (record_acquired deterministic_id id lease m)
  unfolding record_acquired
  record_acquired-Inv id lease m v = elim (Option-cases (reservation_for m.tables id)) [
    | inr (r, e) ↦ rw (e, record_acquired) v
    | inl new ↦ elim (Option-cases (demand_for m.tables id)) [
      | inl missing ↦ rw (new, missing, record_acquired) v
      | inr (d, e) ↦ rw (new, e, record_acquired) (rw returned_tables (try_commit-Inv id _ v))
    ]
  ]

  preempted_for-Inv :
      (event : ResourcePreemption) (by : String) (m : Manager)
      → Inv m.tables
      → Kept (preempted_for deterministic_id event by m)
  preempted_for-Inv event by m v = elim (Option-cases (reservation_for m.tables event.request_id)) [
    | inl gone ↦ rw (gone, preempted_for) v
    | inr (x, e) ↦ elim (Bool-cases (str_eq x.resource_name event.resource_name)) [
      | inr wrong ↦ rw (e, wrong, preempted_for) v
      | inl right ↦
          rw (e, right, preempted_for)
            (rw returned_tables (try_commit_preemption-Inv deterministic_id by _ v))
    ]
  ]

  pub record_preempted-Inv :
      (event : ResourcePreemption) (m : Manager)
      → Inv m.tables
      → Kept (record_preempted deterministic_id event m)
  unfolding record_preempted
  record_preempted-Inv event m v = elim (Option-cases event.preempted_by) [
    | inl nobody ↦ rw (nobody, record_preempted) v
    | inr (by, e) ↦ elim (Bool-cases (str_eq by "")) [
      | inl blank ↦ rw (e, blank, record_preempted) v
      | inr named ↦ rw (e, named, record_preempted) (preempted_for-Inv event by m v)
    ]
  ]

  begin_body-Inv :
      (r : PreemptiveResourceReservation) (i : PreemptiveResourceReleaseIntent) (b : Bool)
      (c c' : Preemptives)
      → begin_body deterministic_id r i c ≡ ok (b, c')
      → Inv c
      → Inv c'
  unfolding save_preemptive_resource_release_intent
  begin_body-Inv r i true c c' h v =
      let stored : c' ≡ record c { release_intents = save i c.release_intents } = ground arith in
      rw stored (Marked-Inv (save i c.release_intents) c v)
  begin_body-Inv r i false c c' h v = let kept : c' ≡ c = ground arith in rw kept v

  pub begin_release-Inv :
      (r : PreemptiveResourceReservation) (now : ℕ) (m : Manager)
      → Inv m.tables
      → Kept (begin_release deterministic_id r now m)
  unfolding begin_release
  begin_release-Inv r now m v =
      transaction_cases (λ o. Kept (on_tables m o)) no_check m.tables
        (begin_body deterministic_id r (release_intent deterministic_id r now)) (λ e. v)
        λ b c' body _. begin_body-Inv r (release_intent deterministic_id r now) b m.tables c' body v

  reconcile-Inv :
      (name : String) (grants : List Granted) (m : Manager)
      → Inv m.tables
      → Kept (reconcile deterministic_id name grants m)
  unfolding reconcile
  reconcile-Inv name [] m v = v
  reconcile-Inv name (g ∷ grants) m v = elim (Bool-cases (str_eq g.lease.resource_name name)) [
    | inr other ↦ rw (other, reconcile) (reconcile-Inv name grants m v)
    | inl same ↦
        let tried = returned deterministic_id (try_commit deterministic_id g.request_id m) in
        let v' : Inv tried.1.tables = rw returned_tables (try_commit-Inv g.request_id m v) in
        let rest = reconcile-Inv name grants tried.1 v' in
        rw (same, reconcile)
          (plan_cases (λ o. Kept o) tried.0 (λ e. (err e, tried.1))
            (λ done. reconcile deterministic_id name grants tried.1) (λ e. v') (λ done f. rest))
  ]

  reconciled_tables : (o : Result (Unit {0}) × Manager) → (reconciled deterministic_id o).1 ≡ o.1
  reconciled_tables (ok _, m) = refl
  reconciled_tables (err e, m) = refl

  finalized-Inv :
      (r : PreemptiveResourceReservation) (o : Result (Unit {0}) × Manager)
      → Kept o
      → Kept (finalized deterministic_id r o)
  unfolding reconcile_pending_grants
  finalized-Inv r (err e, m) v = v
  finalized-Inv r (ok _, m) v =
      rw reconciled_tables (reconcile-Inv r.resource_name m.pending_grants _ v)

  pub finish_release-Inv :
      (r : PreemptiveResourceReservation) (now : ℕ) (m : Manager)
      → Inv m.tables
      → Kept (finish_release deterministic_id r now m)
  unfolding finish_release
  finish_release-Inv r now m v =
      finalized-Inv r
        (on_tables m (finalize_release_intent (release_intent deterministic_id r now) r m.tables))
        (finalize_release_intent-Inv (release_intent deterministic_id r now) r m.tables v)
