-- ===== src/Resource/Requests.antt =====
-- core/resources.py: the methods that compose the others, for one worker. `ran` is what the backend
-- does to the tables when it runs until its own time: it may grant demands.
use sose.Prelude.{Bool, Option, Result, String, err, if◌then◌else◌, none, ok, some, List, ℕ, ◌||◌}
use sose.Resource.Records.{ResourceDemand, ResourceReservation}
use sose.Resource.Tables.{Resources}
use sose.Resource.Manager.{Call, cancel_pending, has_request, request, reservation_for}
use sose.Resource.Release.{release}

module _ (ran : Resources → Resources) where
  abbrev ensured :
      String
      → Result (ResourceDemand × Call) × Resources
      → Result (Option ResourceReservation) × Resources
  ensured request_id (err e, c) = (err e, c)
  ensured request_id (ok _, c) = (ok (reservation_for (ran c) request_id), ran c)

  unfoldable pub ensure_requested :
      String → String → ℕ → ℕ → Resources → Result (Option ResourceReservation) × Resources
  unfolding has_request
  ensure_requested resource_name request_id requested_at priority c =
      if has_request c request_id
      then (ok (reservation_for (ran c) request_id), ran c)
      else ensured request_id (request c resource_name request_id requested_at priority c)

  abbrev withdrawn : Bool → Result Bool × Resources → Result Bool × Resources
  withdrawn changed (err e, c) = (err e, c)
  withdrawn changed (ok released, c) = (ok (released || changed), ran c)

  module _ (deterministic_id : String → List String → String) where
    abbrev release_held :
        (String → Bool) → String → ℕ → Result Bool × Resources → Result Bool × Resources
    release_held leased request_id now (err e, c) = (err e, c)
    release_held leased request_id now (ok changed, c) = elim (reservation_for c request_id) [
      | none ↦ (ok changed, ran c)
      | some r ↦
          withdrawn changed
            (release deterministic_id (leased r.reservation_id) r.reservation_id now c)
    ]

    -- `cancelled` is the backend's answer to a cancellation, and `leased` the leases it has given.
    unfoldable pub withdraw :
        Bool → (String → Bool) → String → ℕ → Resources → Result Bool × Resources
    unfolding cancel_pending
    withdraw cancelled leased request_id now c =
        release_held leased request_id now (cancel_pending c cancelled request_id c)
