-- ===== src/Domain/System.antt =====
-- Histories of the outbox and the warehouse: mutations that are prepared, deliveries that succeed or
-- fail, and processes that die after the warehouse has applied a mutation.

use sose.Prelude.{
  decided_self, Error, List, Option, Option-cases, Result, String, [], err, find, inl, inr, none,
  ok, ◌+◌, refl, some, plan_cases, ℕ, ◌>>=◌, ◌≡◌, ◌∷◌,
}
use sose.Domain.Warehouse.{
  DomainApplyResult, DomainMutation, DomainMutation-discrete, MemoryDomainWarehouse, apply,
  find_entity, mutation_keyed, replayed,
}
use sose.Domain.Outbox.{
  Deliveries, Domain, DomainDelivery, acknowledged, deliver, deliver_all, delivery_keyed,
  domain_deliveries, flush, prepare, try_apply,
}
use sose.Domain.Latest.{Latest, apply-Latest, apply-keeps_mutation, apply-records}
use sose.Domain.Held.{
  Held, try_apply-keeps, prepare-Held, prepare-Waits, deliver-Held, raised_after_deliveries,
  try_apply-Latest,
}

pub data Step : Type 0 where
  prepares : DomainMutation → Step
  delivers : Option Error → String → Step
  flushes : Option Error → Step
  dies : String → Step

-- The warehouse applies a pending mutation, and the process dies before it acknowledges it.
abbrev unacknowledged : Option DomainDelivery → Domain → Domain
unacknowledged none d = d
unacknowledged (some current) d = record d { warehouse = (apply current.mutation d.warehouse).1 }

abbrev pub start : Domain
start = record { deliveries = []; warehouse = record { entities = []; mutations = [] } }

unfoldable pub step : Domain → Step → Domain
step d (prepares mutation) = (prepare mutation d).1
step d (delivers broken id) = (deliver broken id d).1
step d (flushes broken) = (flush broken d).1
step d (dies id) = unacknowledged (find id d.deliveries) d

unfoldable pub run : Domain → List Step → Domain
unfolding step
run d [] = d
run d (s ∷ steps) = run (step d s) steps

-- The steps keep what `deliver`, the preparation and a lost acknowledgement keep.
module _ {ℓ} (P : Domain → Type ℓ)
    (of_deliver : (broken : Option Error) (id : String) (d : Domain)
      → P d
      → P (deliver broken id d).1)
    (of_prepare : (m : DomainMutation) (d : Domain) → P d → P (prepare m d).1)
    (of_death : (x : DomainDelivery) (d : Domain) → P d → P (unacknowledged (some x) d)) where
  deliver_all-keeps :
      (broken : Option Error) (rows : List DomainDelivery) (d : Domain)
      → P d
      → P (deliver_all broken rows d).1
  unfolding deliver_all
  deliver_all-keeps broken [] d v = v
  deliver_all-keeps broken (x ∷ rows) d v =
      let d' = (deliver broken x.mutation.mutation_id d).1 in
      let v' = of_deliver broken x.mutation.mutation_id d v in
      let rest = deliver_all-keeps broken rows d' v' in
      plan_cases {B = Result ℕ × Domain} (λ o. P o.1) (deliver broken x.mutation.mutation_id d).0
        (λ e. (err e, d'))
        (λ r.
          ((deliver_all broken rows d').0 >>= (λ n. ok (n + 1)), (deliver_all broken rows d').1))
        (λ e. v') (λ r f. rest)

  step-keeps : (d : Domain) (s : Step) → P d → P (step d s)
  unfolding step flush
  step-keeps d (prepares m) v = of_prepare m d v
  step-keeps d (delivers broken id) v = of_deliver broken id d v
  step-keeps d (flushes broken) v = deliver_all-keeps broken (domain_deliveries d.deliveries) d v
  step-keeps d (dies id) v = elim (Option-cases (find id d.deliveries)) [
    | inl gone ↦ rw (gone, step) v
    | inr (x, e) ↦ rw (e, step) (of_death x d v)
  ]

  pub run-keeps : (d : Domain) (steps : List Step) → P d → P (run d steps)
  unfolding run
  run-keeps d [] v = v
  run-keeps d (s ∷ steps) v = run-keeps (step d s) steps (step-keeps d s v)

acknowledged_warehouse :
    (current : DomainDelivery) (ds : Deliveries)
    (o : Result DomainApplyResult × MemoryDomainWarehouse)
    → (acknowledged current ds o).1.warehouse ≡ o.1
acknowledged_warehouse current ds (ok r, w) = refl
acknowledged_warehouse current ds (err e, w) = rw raised_after_deliveries refl

deliver-Latest :
    (broken : Option Error) (id : String) (d : Domain)
    → Latest d.warehouse
    → Latest (deliver broken id d).1.warehouse
unfolding deliver
deliver-Latest broken id d v = elim (Option-cases (find id d.deliveries)) [
  | inl gone ↦ rw (gone, deliver) v
  | inr (x, e) ↦
      rw (e, deliver) (rw acknowledged_warehouse (try_apply-Latest broken x.mutation d.warehouse v))
]

deliver-keeps :
    (broken : Option Error) (k : String) (d : Domain) (id : String) (m : DomainMutation)
    → find id d.warehouse.mutations ≡ some m
    → find id (deliver broken k d).1.warehouse.mutations ≡ some m
unfolding deliver
deliver-keeps broken k d id m v = elim (Option-cases (find k d.deliveries)) [
  | inl gone ↦ rw (gone, deliver) v
  | inr (x, e) ↦
      rw (e, deliver)
        (rw acknowledged_warehouse (try_apply-keeps broken x.mutation d.warehouse id m v))
]

repeated :
    (m : DomainMutation) (w : MemoryDomainWarehouse)
    → find m.mutation_id w.mutations ≡ some m
    → apply m w ≡ (ok replayed, w)
unfolding apply
repeated m w h = rw (h, apply) (rw (decided_self (DomainMutation-discrete m m) refl) refl)

start-Latest : Latest start.warehouse
unfolding find find_entity
start-Latest = (λ id m e. cc, λ kind id e h. cc)

-- After any history of preparations, deliveries in any order, failures, retries and deaths between
-- the warehouse's answer and its acknowledgement, the warehouse holds, for each mutation that it has
-- recorded, the entity at that version or a later one; where it is at that version, it is the
-- mutation's entity; and every entity that it holds is the entity of a mutation that it has
-- recorded.
pub run-Latest : (steps : List Step) → Latest (run start steps).warehouse
unfolding prepare
run-Latest steps =
    run-keeps (λ d. Latest d.warehouse) deliver-Latest (λ m d v. v)
      (λ x d v. apply-Latest x.mutation d.warehouse v) start steps start-Latest

-- A mutation whose preparation returned is never lost: after any earlier and any later history it
-- still waits in the engine's table, or the warehouse has recorded it.
pub never_lost :
    (steps later : List Step) (m : DomainMutation) (x : DomainDelivery)
    → (prepare m (run start steps)).0 ≡ ok x
    → Held m.mutation_id m (run (prepare m (run start steps)).1 later)
unfolding try_apply
never_lost steps later m x h =
    run-keeps (λ d. Held m.mutation_id m d)
      (λ broken id d v. deliver-Held broken id d m.mutation_id m v)
      (λ y d v. prepare-Held y d m.mutation_id m v) (λ y d v. died y d v)
      (prepare m (run start steps)).1 later (inl (prepare-Waits m (run start steps) x h))
  where
    died :
        (y : DomainDelivery) (d : Domain)
        → Held m.mutation_id m d
        → Held m.mutation_id m (unacknowledged (some y) d)
    died y d (inl waits) = inl waits
    died y d (inr known) = inr (apply-keeps_mutation y.mutation d.warehouse m.mutation_id m known)

-- A mutation that the warehouse has once answered, whatever it answered, and whether or not the
-- answer was acknowledged, is answered as a replay after any later history, and leaves the warehouse
-- as it is: a delivery that is repeated has no effect.
pub replay_harmless :
    (steps later : List Step) (m : DomainMutation) (r : DomainApplyResult)
    → let d = run start steps in
      (apply m d.warehouse).0 ≡ ok r
      → let w = (run (record d { warehouse = (apply m d.warehouse).1 }) later).warehouse in
        apply m w ≡ (ok replayed, w)
unfolding prepare
replay_harmless steps later m r answered =
    let d = run start steps in
    repeated m _ (
      run-keeps (λ d. find m.mutation_id d.warehouse.mutations ≡ some m)
        (λ broken id d v. deliver-keeps broken id d m.mutation_id m v) (λ y d v. v)
        (λ y d v. apply-keeps_mutation y.mutation d.warehouse m.mutation_id m v)
        (record d { warehouse = (apply m d.warehouse).1 }) later
        (apply-records m d.warehouse r answered))
