-- ===== src/Preempt/Release.antt =====
-- core/preemption.py: the release of a reservation, in two transactions with the backend in between.
use sose.Prelude.{
  Bool, List, Result, String, [], delete, err, false, find, if◌then◌else◌, none, not, ok, raise_if,
  runtime_error, same, some, str_eq, transaction, true, ℕ, ◌>>=◌, ◌>>◌, ◌∷◌,
}
use sose.Preempt.Records.{
  PreemptiveResourceReleaseIntent, PreemptiveResourceReleaseIntent-discrete,
  PreemptiveResourceReservation, PreemptiveResourceReservation-discrete, intent_keyed,
  reservation_keyed,
}
use sose.Preempt.Tables.{
  Preemptives, delete_preemptive_resource_release_intent, delete_preemptive_resource_reservation,
  no_check, preemptive_resource_reservations, save_preemptive_resource_release_intent,
}
use sose.Preempt.Manager.{Granted, Manager, leased_keyed, on_tables}
use sose.Preempt.Grant.{returned, try_commit}

-- The transaction of `_finalize_release_intent`.
abbrev pub finalize_body :
    PreemptiveResourceReleaseIntent
    → PreemptiveResourceReservation
    → Preemptives
    → Result (Unit {0} × Preemptives)
finalize_body intent reservation uow = do
  raise_if
      (not (
        same PreemptiveResourceReleaseIntent-discrete (find intent.intent_id uow.release_intents)
          intent))
      (runtime_error "preemptive release intent changed")
  raise_if
      (not (
        same PreemptiveResourceReservation-discrete
          (find reservation.reservation_id uow.reservations) reservation))
      (runtime_error "preemptive reservation changed during release")
  ok (
    tt,
    delete_preemptive_resource_release_intent intent.intent_id
        (delete_preemptive_resource_reservation reservation.reservation_id uow),
  )

unfoldable pub finalize_release_intent :
    PreemptiveResourceReleaseIntent
    → PreemptiveResourceReservation
    → Preemptives
    → Result (Unit {0}) × Preemptives
finalize_release_intent intent reservation c =
    transaction no_check (finalize_body intent reservation) c

module _ (deterministic_id : String → List String → String) where
  unfoldable pub release_intent :
      PreemptiveResourceReservation → ℕ → PreemptiveResourceReleaseIntent
  release_intent reservation now = record {
    intent_id = deterministic_id "preemptive-resource-release" (reservation.reservation_id ∷ []);
    reservation_id = reservation.reservation_id;
    resource_name = reservation.resource_name;
    requested_at = now;
  }

  -- The first transaction of `release`: whether the reservation is still what was read.
  abbrev pub begin_body :
      PreemptiveResourceReservation
      → PreemptiveResourceReleaseIntent
      → Preemptives
      → Result (Bool × Preemptives)
  begin_body reservation intent uow =
      if not (
        same PreemptiveResourceReservation-discrete
          (find reservation.reservation_id uow.reservations) reservation)
      then ok (false, uow)
      else (do uow ← save_preemptive_resource_release_intent intent uow; ok (true, uow))

  unfoldable pub begin_release : PreemptiveResourceReservation → ℕ → Manager → Result Bool × Manager
  unfolding release_intent
  begin_release reservation now m =
      on_tables m
        (transaction no_check (begin_body reservation (release_intent reservation now)) m.tables)

  -- The loop of `_reconcile_pending_grants`, which an exception ends.
  unfoldable pub reconcile : String → List Granted → Manager → Result (Unit {0}) × Manager
  unfolding try_commit
  reconcile resource_name [] m = (ok tt, m)
  reconcile resource_name (grant ∷ grants) m =
      let skipped = reconcile resource_name grants m in
      let (answer, m') =
        returned deterministic_id (try_commit deterministic_id grant.request_id m) in
      let rest = reconcile resource_name grants m' in
      if not (str_eq grant.lease.resource_name resource_name)
      then skipped
      else elim answer [ ok _ ↦ rest | err e ↦ (err e, m') ]

  unfoldable pub reconcile_pending_grants : String → Manager → Result (Unit {0}) × Manager
  unfolding reconcile
  reconcile_pending_grants resource_name m = reconcile resource_name m.pending_grants m

  abbrev pub reconciled : Result (Unit {0}) × Manager → Result Bool × Manager
  reconciled (err e, m) = (err e, m)
  reconciled (ok _, m) = (ok true, m)

  abbrev pub finalized :
      PreemptiveResourceReservation → Result (Unit {0}) × Manager → Result Bool × Manager
  finalized reservation (err e, m) = (err e, m)
  finalized reservation (ok _, m) = reconciled (
      reconcile_pending_grants reservation.resource_name
        (record m { backend_leases = delete reservation.reservation_id m.backend_leases }))

  -- The part of `release` after the backend has been told.
  unfoldable pub finish_release :
      PreemptiveResourceReservation → ℕ → Manager → Result Bool × Manager
  unfolding finalize_release_intent reconcile_pending_grants release_intent
  finish_release reservation now m =
      finalized reservation (
        on_tables m (finalize_release_intent (release_intent reservation now) reservation m.tables))

  -- `told` is what the callbacks do that the backend runs while it releases the lease.
  abbrev pub begun :
      (Manager → Manager)
      → PreemptiveResourceReservation
      → ℕ
      → Result Bool × Manager
      → Result Bool × Manager
  begun told reservation now (err e, m) = (err e, m)
  begun told reservation now (ok false, m) = (ok false, m)
  begun told reservation now (ok true, m) = finish_release reservation now (told m)

  -- `release`; `now` is the backend's time.
  unfoldable pub release : (Manager → Manager) → String → ℕ → Manager → Result Bool × Manager
  unfolding begin_release finish_release
  release told reservation_id now m =
      elim (find reservation_id (preemptive_resource_reservations m.tables)) [
        | none ↦ (ok false, m)
        | some reservation ↦ elim (find reservation_id m.backend_leases) [
          | none ↦ (
            err (runtime_error "backend lease is not reconstructed for preemptive reservation"),
            m,
          )
          | some lease ↦ begun told reservation now (begin_release reservation now m)
        ]
      ]
