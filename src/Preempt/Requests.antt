-- ===== src/Preempt/Requests.antt =====
-- core/preemption.py: `ensure_requested` and `withdraw`, which compose the other methods. `ran` is
-- what the backend's callbacks do when it runs until its own time.
use sose.Prelude.{
  Bool, List, Option, Result, String, err, if◌then◌else◌, none, not, ok, some, ℕ, ◌||◌,
}
use sose.Preempt.Records.{PreemptiveResourceDemand, PreemptiveResourceReservation, demand_keyed}
use sose.Preempt.Manager.{Call, Manager, cancel_pending, request, request_exists, reservation_for}
use sose.Preempt.Release.{release}
use sose.Preempt.Inv.{Inv}

abbrev asked_for :
    (Manager → Manager)
    → String
    → Result (PreemptiveResourceDemand × Call) × Manager
    → Result (Option PreemptiveResourceReservation) × Manager
asked_for ran request_id (err e, m) = (err e, m)
asked_for ran request_id (ok _, m) = (ok (reservation_for (ran m).tables request_id), ran m)

unfoldable pub ensure_requested :
    (Manager → Manager)
    → String
    → String
    → ℕ
    → ℕ
    → Bool
    → Manager
    → Result (Option PreemptiveResourceReservation) × Manager
unfolding request request_exists reservation_for
ensure_requested ran resource_name request_id requested_at priority preempt m =
    if not (request_exists m.tables request_id)
    then asked_for ran request_id (request resource_name request_id requested_at priority preempt m)
    else (ok (reservation_for (ran m).tables request_id), ran m)

abbrev withdrawn : (Manager → Manager) → Bool → Result Bool × Manager → Result Bool × Manager
withdrawn ran changed (err e, m) = (err e, m)
withdrawn ran changed (ok released, m) = (ok (released || changed), ran m)

module _ (deterministic_id : String → List String → String) where
  abbrev cancelled_first :
      (Manager → Manager)
      → (Manager → Manager)
      → String
      → ℕ
      → Result Bool × Manager
      → Result Bool × Manager
  cancelled_first told ran request_id now (err e, m) = (err e, m)
  cancelled_first told ran request_id now (ok changed, m) =
      elim (reservation_for m.tables request_id) [
        | none ↦ (ok changed, ran m)
        | some reservation ↦
            withdrawn ran changed (release deterministic_id told reservation.reservation_id now m)
      ]

  unfoldable pub withdraw :
      (Manager → Manager)
      → (Manager → Manager)
      → Bool
      → String
      → ℕ
      → Manager
      → Result Bool × Manager
  unfolding cancel_pending release reservation_for
  withdraw told ran cancelled request_id now m =
      cancelled_first told ran request_id now (cancel_pending cancelled request_id m)
