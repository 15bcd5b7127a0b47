-- ===== src/Resource/Release.antt =====
-- core/resources.py: the release of a reservation in two transactions, with the backend in
-- between, and what a restart does with a release that was interrupted between them.
use sose.Prelude.{
  Bool, List, Result, String, [], err, false, find, if◌then◌else◌, none, not, ok, raise_if,
  runtime_error, same, some, transaction, true, ℕ, ◌++◌, map, length, ◌+◌, ◌>>=◌, ◌>>◌, ◌∷◌,
}
use sose.Resource.Records.{
  ResourceReleaseIntent, ResourceReleaseIntent-discrete, ResourceReservation,
  ResourceReservation-discrete, intent_keyed, reservation_keyed,
}
use sose.Resource.Tables.{
  Resources, delete_resource_release_intent, delete_resource_reservation, no_check,
  resource_definitions, resource_demands, resource_release_intents, resource_reservations,
  save_resource_release_intent,
}
use sose.Resource.Manager.{Call, create_resource, request_resource}

-- The transaction of `_finalize_release_intent`.
abbrev pub finalize_body :
    ResourceReleaseIntent → ResourceReservation → Resources → Result (Unit {0} × Resources)
finalize_body intent reservation uow = do
  raise_if
      (not (same ResourceReleaseIntent-discrete (find intent.intent_id uow.release_intents) intent))
      (runtime_error "resource release intent changed")
  raise_if
      (not (
        same ResourceReservation-discrete (find reservation.reservation_id uow.reservations)
          reservation))
      (runtime_error "resource reservation changed during release")
  ok (
    tt,
    delete_resource_release_intent intent.intent_id
        (delete_resource_reservation reservation.reservation_id uow),
  )

unfoldable pub finalize_release_intent :
    ResourceReleaseIntent → ResourceReservation → Resources → Result (Unit {0}) × Resources
finalize_release_intent intent reservation c =
    transaction no_check (finalize_body intent reservation) c

-- One turn of the loop of `_finalize_interrupted_releases`, which reads the tables again.
unfoldable pub finalize_one : ResourceReleaseIntent → Resources → Result (Unit {0}) × Resources
unfolding finalize_release_intent
finalize_one discovered c = elim (find discovered.intent_id (resource_release_intents c)) [
  | none ↦ (ok tt, c)
  | some intent ↦
      if not (same ResourceReleaseIntent-discrete (some intent) discovered)
      then (err (runtime_error "resource release intent changed"), c)
      else elim (find discovered.reservation_id (resource_reservations c)) [
        | none ↦ (ok tt, delete_resource_release_intent intent.intent_id c)
        | some reservation ↦ finalize_release_intent intent reservation c
      ]
]

-- The loop, which an exception ends.
unfoldable pub finalize_all : List ResourceReleaseIntent → Resources → Result (Unit {0}) × Resources
unfolding finalize_one
finalize_all [] c = (ok tt, c)
finalize_all (intent ∷ intents) c =
    let (answer, c') = finalize_one intent c in
    let rest = finalize_all intents c' in elim answer [ ok _ ↦ rest | err e ↦ (err e, c') ]

unfoldable pub finalize_interrupted_releases : Resources → Result (Unit {0}) × Resources
finalize_interrupted_releases c = finalize_all (resource_release_intents c) c

-- The calls of `rebuild_backend`, after it has finalized the interrupted releases.
unfoldable pub rebuild_calls : Resources → List Call
rebuild_calls c =
    map (λ d. create_resource d.name d.capacity) (resource_definitions c)
    ++ map (λ r. request_resource r.resource_name r.request_id 0) (resource_reservations c)
    ++ map (λ d. request_resource d.resource_name d.request_id d.priority) (resource_demands c)

abbrev rebuilt : Result (Unit {0}) × Resources → Result (List Call × ℕ) × Resources
rebuilt (err e, c) = (err e, c)
rebuilt (ok _, c) =
    (ok (rebuild_calls c, length (resource_reservations c) + length (resource_demands c)), c)

unfoldable pub rebuild_backend : Resources → Result (List Call × ℕ) × Resources
unfolding finalize_interrupted_releases rebuild_calls
rebuild_backend c = rebuilt (finalize_interrupted_releases c)

abbrev released : Result (Unit {0}) × Resources → Result Bool × Resources
released (err e, c) = (err e, c)
released (ok _, c) = (ok true, c)

module _ (deterministic_id : String → List String → String) where
  unfoldable pub release_intent : ResourceReservation → ℕ → ResourceReleaseIntent
  release_intent reservation now = record {
    intent_id = deterministic_id "resource-release" (reservation.reservation_id ∷ []);
    reservation_id = reservation.reservation_id;
    resource_name = reservation.resource_name;
    requested_at = now;
  }

  -- The first transaction of `_release_guarded`: whether the reservation is still what was read.
  abbrev pub begin_body :
      ResourceReservation → ResourceReleaseIntent → Resources → Result (Bool × Resources)
  begin_body reservation intent uow =
      if not (
        same ResourceReservation-discrete (find reservation.reservation_id uow.reservations)
          reservation)
      then ok (false, uow)
      else (do uow ← save_resource_release_intent intent uow; ok (true, uow))

  unfoldable pub begin_release : ResourceReservation → ℕ → Resources → Result Bool × Resources
  unfolding release_intent
  begin_release reservation now c =
      transaction no_check (begin_body reservation (release_intent reservation now)) c

  abbrev pub finish_release :
      ResourceReservation → ℕ → Result Bool × Resources → Result Bool × Resources
  finish_release reservation now (err e, c) = (err e, c)
  finish_release reservation now (ok false, c) = (ok false, c)
  finish_release reservation now (ok true, c) =
      released (finalize_release_intent (release_intent reservation now) reservation c)

  -- `_release_guarded`. `leased` says whether the backend's lease has been reconstructed, and
  -- `now` is the backend's time.
  unfoldable pub release : Bool → String → ℕ → Resources → Result Bool × Resources
  unfolding begin_release finalize_release_intent release_intent
  release leased reservation_id now c = elim (find reservation_id (resource_reservations c)) [
    | none ↦ (ok false, c)
    | some reservation ↦
        if leased
        then finish_release reservation now (begin_release reservation now c)
        else (err (runtime_error "backend lease is not reconstructed for reservation"), c)
  ]
