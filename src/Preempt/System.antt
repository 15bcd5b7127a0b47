-- ===== src/Preempt/System.antt =====
-- Histories of the preemptive manager of one process: its methods, the backend's callbacks in any
-- order between them, crashes and restarts.
use sose.Prelude.{Bool, List, String, [], ℕ, ◌∷◌}
use sose.Preempt.Records.{
  PreemptiveResourceDefinition, PreemptiveResourceReservation, ResourceLease, ResourcePreemption,
  intent_keyed, reservation_keyed,
}
use sose.Preempt.Tables.{empty}
use sose.Preempt.Manager.{
  Manager, cancel_pending, clear_ephemeral_state, define, displaced_keyed, granted_keyed,
  leased_keyed, request,
}
use sose.Preempt.Grant.{record_acquired, record_preempted}
use sose.Preempt.Release.{begin_release, finish_release}
use sose.Preempt.Rebuild.{rebuild_backend}
use sose.Preempt.Inv.{Inv}
use sose.Preempt.Invariant.{empty-Inv}
use sose.Preempt.Keeps.{cancel_pending-Inv, define-Inv, request-Inv}
use sose.Preempt.Callbacks.{
  rebuild_tables-Inv, record_acquired-Inv, record_preempted-Inv, begin_release-Inv,
  finish_release-Inv,
}

pub data Step : Type 0 where
  defines : PreemptiveResourceDefinition → Step
  requests : String → String → ℕ → ℕ → Bool → Step
  cancels : Bool → String → Step
  acquires : String → ResourceLease → Step
  preempts : ResourcePreemption → Step
  begins finishes : PreemptiveResourceReservation → ℕ → Step
  crashes rebuilds : Step

abbrev pub started : Manager
started = record {
  tables = empty;
  backend_leases = [];
  pending_grants = [];
  pending_preemptions = [];
}

module _ (deterministic_id : String → List String → String) where
  unfoldable pub step : Manager → Step → Manager
  step m (defines definition) = (define definition m).1
  step m (requests name id at prio preempt) = (request name id at prio preempt m).1
  step m (cancels cancelled id) = (cancel_pending cancelled id m).1
  step m (acquires id lease) = (record_acquired deterministic_id id lease m).1
  step m (preempts event) = (record_preempted deterministic_id event m).1
  step m (begins reservation now) = (begin_release deterministic_id reservation now m).1
  step m (finishes reservation now) = (finish_release deterministic_id reservation now m).1
  step m crashes = clear_ephemeral_state m
  step m rebuilds = (rebuild_backend m).1

  unfoldable pub run : Manager → List Step → Manager
  unfolding step
  run m [] = m
  run m (s ∷ steps) = run (step m s) steps

  step-Inv : (m : Manager) (s : Step) → Inv m.tables → Inv (step m s).tables
  unfolding step clear_ephemeral_state rebuild_backend
  step-Inv m (defines d) v = define-Inv d m v
  step-Inv m (requests name id at prio preempt) v = request-Inv name id at prio preempt m v
  step-Inv m (cancels cancelled id) v = cancel_pending-Inv cancelled id m v
  step-Inv m (acquires id lease) v = record_acquired-Inv deterministic_id id lease m v
  step-Inv m (preempts event) v = record_preempted-Inv deterministic_id event m v
  step-Inv m (begins r now) v = begin_release-Inv deterministic_id r now m v
  step-Inv m (finishes r now) v = finish_release-Inv deterministic_id r now m v
  step-Inv m crashes v = v
  step-Inv m rebuilds v = rebuild_tables-Inv m.tables v

  pub run-Inv_from : (m : Manager) (steps : List Step) → Inv m.tables → Inv (run m steps).tables
  unfolding run
  run-Inv_from m [] v = v
  run-Inv_from m (s ∷ steps) v = run-Inv_from (step m s) steps (step-Inv m s v)

  -- After any history of one process's calls, of the backend's callbacks at any moment and with any
  -- leases and notices, also between the two transactions of a release, and of crashes and
  -- restarts: no resource has more reservations than its capacity, no request is both pending and
  -- reserved, identities are distinct and every row names a defined resource.
  pub preempt_run-Inv : (steps : List Step) → Inv (run started steps).tables
  preempt_run-Inv steps = run-Inv_from started steps empty-Inv
