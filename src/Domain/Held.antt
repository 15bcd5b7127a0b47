-- ===== src/Domain/Held.antt =====
-- A delivery leaves the table only where the warehouse has recorded its mutation.
use mathlib.Core.Option.{some-injective}
use sose.Prelude.{
  decided→eq, not, decided, ap, ◌∙◌, Bool-cases, Error, Option, Option-cases, Result, String, arith,
  eq_iff, eq_refl, err, false, find, find-delete, find-key, find-save, inl, inr, none, ok, refl,
  save, some, str_eq, bind-eq-ok, sym, transaction, transaction_cases, ◌≡◌, ◌⊎◌, raise_if,
}
use sose.Domain.Warehouse.{
  DomainApplyResult, DomainMutation, DomainMutation-discrete, MemoryDomainWarehouse, mutation_keyed,
}
use sose.Domain.Outbox.{
  Deliveries, Domain, DomainDelivery, acknowledged, conflicts, deliver, delivery_keyed, enqueue,
  enqueue_found, failure_body, failure_from, no_check, prepare, raised_after, save_domain_delivery,
  try_apply,
}
use sose.Domain.Latest.{Latest, apply-Latest, apply-keeps_mutation, apply-records}

-- The mutation waits in the table, or the warehouse has recorded it.
abbrev pub Waits : String → DomainMutation → Deliveries → Type 0
Waits id m deliveries = (x : DomainDelivery) × (find id deliveries ≡ some x) × (x.mutation ≡ m)

abbrev pub Held : String → DomainMutation → Domain → Type 0
Held id m d = Waits id m d.deliveries ⊎ (find id d.warehouse.mutations ≡ some m)

pub try_apply-keeps :
    (broken : Option Error) (m : DomainMutation) (w : MemoryDomainWarehouse) (id : String)
    (x : DomainMutation)
    → find id w.mutations ≡ some x
    → find id (try_apply broken m w).1.mutations ≡ some x
unfolding try_apply
try_apply-keeps (some e) m w id x h = h
try_apply-keeps none m w id x h = apply-keeps_mutation m w id x h

try_apply-records :
    (broken : Option Error) (m : DomainMutation) (w : MemoryDomainWarehouse) (r : DomainApplyResult)
    → (try_apply broken m w).0 ≡ ok r
    → find m.mutation_id (try_apply broken m w).1.mutations ≡ some m
unfolding try_apply
try_apply-records (some e) m w r h = cc
try_apply-records none m w r h = apply-records m w r h

pub try_apply-Latest :
    (broken : Option Error) (m : DomainMutation) (w : MemoryDomainWarehouse)
    → Latest w
    → Latest (try_apply broken m w).1
unfolding try_apply
try_apply-Latest (some e) m w v = v
try_apply-Latest none m w v = apply-Latest m w v

save_domain_delivery-Waits :
    (x : DomainDelivery) (ds ds' : Deliveries) (id : String) (m : DomainMutation)
    → save_domain_delivery x ds ≡ ok ds'
    → Waits id m ds
    → Waits id m ds'
unfolding save_domain_delivery
save_domain_delivery-Waits x ds ds' id m h (y, there, same) =
    let saved : ds' ≡ save x ds = ground arith in
    let agrees : conflicts (find x.mutation.mutation_id ds) x.mutation ≡ false = ground arith in
    elim (Bool-cases (str_eq x.mutation.mutation_id id)) [
      | inr other ↦ (y, ground (arith, saved, other, there, find-save id x ds), same)
      | inl this ↦
          let key : x.mutation.mutation_id ≡ id =
            ground (arith, this, eq_iff x.mutation.mutation_id id) in
          let equal : y.mutation ≡ x.mutation =
            decided→eq (DomainMutation-discrete y.mutation x.mutation)
              (ground (arith, key, there, agrees)) in
          (x, ground (arith, saved, this, find-save id x ds), cc)
    ]

failure_from-Waits :
    (o : Option DomainDelivery) (current : DomainDelivery) (e : Error) (ds ds' : Deliveries)
    (id : String) (m : DomainMutation)
    → failure_from o current e ds ≡ ok (tt, ds')
    → Waits id m ds
    → Waits id m ds'
failure_from-Waits none current e ds ds' id m f (x, there, same) =
    let kept : ds ≡ ds' = ground arith in (x, rw (sym kept) there, same)
failure_from-Waits (some y) current e ds ds' id m f h =
    let (ds'', saved, rest) = bind-eq-ok (save_domain_delivery _ ds) _ f in
    let kept : ds'' ≡ ds' = ground arith in
    rw (sym kept) (save_domain_delivery-Waits _ ds ds'' id m saved h)

failure-Waits :
    (current : DomainDelivery) (e : Error) (ds : Deliveries) (id : String) (m : DomainMutation)
    → Waits id m ds
    → Waits id m (transaction no_check (failure_body current e) ds).1
failure-Waits current e ds id m h =
    transaction_cases (λ o. Waits id m o.1) no_check ds (failure_body current e) (λ x. h)
      λ _ ds' f _.
        failure_from-Waits (find current.mutation.mutation_id ds) current e ds ds' id m f h

pub raised_after_deliveries :
    (e : Error) (o : Result (Unit {0}) × Deliveries) (w : MemoryDomainWarehouse)
    → (raised_after e o w).1 ≡ record { deliveries = o.1; warehouse = w }
raised_after_deliveries e (ok _, ds) w = refl
raised_after_deliveries e (err x, ds) w = refl

-- An acknowledgement takes a delivery away only where the warehouse has recorded it.
acknowledged-Held :
    (current : DomainDelivery) (ds : Deliveries)
    (o : Result DomainApplyResult × MemoryDomainWarehouse) (id : String) (m : DomainMutation)
    → find current.mutation.mutation_id ds ≡ some current
    → ((r : DomainApplyResult)
        → o.0 ≡ ok r
        → find current.mutation.mutation_id o.1.mutations ≡ some current.mutation)
    → Waits id m ds ⊎ (find id o.1.mutations ≡ some m)
    → Held id m (acknowledged current ds o).1
acknowledged-Held current ds (err e, w) id m there records (inr known) =
    rw raised_after_deliveries (inr known)
acknowledged-Held current ds (err e, w) id m there records (inl waits) =
    rw raised_after_deliveries (inl (failure-Waits current e ds id m waits))
acknowledged-Held current ds (ok r, w) id m there records (inr known) = inr known
acknowledged-Held current ds (ok r, w) id m there records (inl (x, found, same)) =
    elim (Bool-cases (str_eq current.mutation.mutation_id id)) [
      | inr other ↦
          inl
            (x, ground (arith, other, found, find-delete id current.mutation.mutation_id ds), same)
      | inl this ↦
          let key : current.mutation.mutation_id ≡ id =
            ground (arith, this, eq_iff current.mutation.mutation_id id) in
          let equal : current ≡ x =
            some-injective _ _ (sym there ∙ ap (λ k. find k ds) key ∙ found) in
          inr (rw (sym key, sym same, sym equal) (records r refl))
    ]

pub deliver-Held :
    (broken : Option Error) (k : String) (d : Domain) (id : String) (m : DomainMutation)
    → Held id m d
    → Held id m (deliver broken k d).1
unfolding deliver
deliver-Held broken k d id m h = elim (Option-cases (find k d.deliveries)) [
  | inl gone ↦ rw (gone, deliver) h
  | inr (x, e) ↦
      let key = find-key k d.deliveries x e in
      rw (e, deliver)
        (acknowledged-Held x d.deliveries (try_apply broken x.mutation d.warehouse) id m
          (ap (λ z. find z d.deliveries) key ∙ e) (try_apply-records broken x.mutation d.warehouse)
          (still h x))
]
  where
    still :
        Held id m d
        → (x : DomainDelivery)
        → Waits id m d.deliveries
          ⊎ (find id (try_apply broken x.mutation d.warehouse).1.mutations ≡ some m)
    still (inl waits) x = inl waits
    still (inr known) x = inr (try_apply-keeps broken x.mutation d.warehouse id m known)

enqueue_found-Waits :
    (o : Option DomainDelivery) (m : DomainMutation) (x : DomainDelivery) (ds ds' : Deliveries)
    → find m.mutation_id ds ≡ o
    → enqueue_found o m ds ≡ ok (x, ds')
    → Waits m.mutation_id m ds'
      × ((id : String) (y : DomainMutation) → Waits id y ds → Waits id y ds')
unfolding save_domain_delivery
enqueue_found-Waits (some y) m x ds ds' there h =
    let (_, agrees, rest) =
      bind-eq-ok (raise_if (not (decided (DomainMutation-discrete y.mutation m))) _) _ h in
    let equal : y.mutation ≡ m =
      decided→eq (DomainMutation-discrete y.mutation m) (ground (arith, agrees)) in
    let kept : ds ≡ ds' = ground arith in rw (sym kept) ((y, there, equal), λ id z w. w)
enqueue_found-Waits none m x ds ds' there h =
    let new : DomainDelivery = record { mutation = m; attempts = 0; last_error = none } in
    let (ds'', saved, rest) = bind-eq-ok (save_domain_delivery new ds) _ h in
    let kept : ds'' ≡ ds' = ground arith in
    let stored : ds'' ≡ save new ds = ground arith in
    rw (sym kept) (
      (new, ground (arith, stored, find-save m.mutation_id new ds, eq_refl m.mutation_id), refl),
      λ id z w. save_domain_delivery-Waits new ds ds'' id z saved w,
    )

pub prepare-Held :
    (m : DomainMutation) (d : Domain) (id : String) (y : DomainMutation)
    → Held id y d
    → Held id y (prepare m d).1
unfolding prepare enqueue
prepare-Held m d id y (inr known) = inr known
prepare-Held m d id y (inl waits) = inl (
    transaction_cases (λ o. Waits id y o.1) no_check d.deliveries (enqueue m) (λ e. waits)
      λ x ds' body _.
        (enqueue_found-Waits (find m.mutation_id d.deliveries) m x d.deliveries ds' refl body).1 id
          y waits)

-- A preparation that returns leaves its mutation waiting.
pub prepare-Waits :
    (m : DomainMutation) (d : Domain) (x : DomainDelivery)
    → (prepare m d).0 ≡ ok x
    → Waits m.mutation_id m (prepare m d).1.deliveries
unfolding prepare enqueue
prepare-Waits m d x =
    transaction_cases (λ o. o.0 ≡ ok x → Waits m.mutation_id m o.1) no_check d.deliveries
      (enqueue m) (λ e h. cc)
      λ y ds' body _ h.
        (enqueue_found-Waits (find m.mutation_id d.deliveries) m y d.deliveries ds' refl body).0
