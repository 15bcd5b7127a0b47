-- ===== src/Domain/Drain.antt =====
-- A flush that returns leaves nothing waiting.
use sose.Prelude.{
  ap, sym, ◌∙◌, Bool-cases, Error, List, Option, Option-cases, Result, Result-cases, String, Unique,
  Unique-delete, Unique-save, [], arith, bind-eq-ok, eq_iff, err, find, find-delete, find-key,
  find-sorted, inl, inr, none, ok, save, some, str_eq, str_leb, transaction, transaction_cases, ℕ,
  ◌≡◌, ◌⊎◌, ◌∷◌,
}
use sose.Domain.Warehouse.{DomainApplyResult, DomainMutation, MemoryDomainWarehouse}
use sose.Domain.Outbox.{
  Deliveries, Domain, DomainDelivery, acknowledged, deliver, deliver_all, delivery_keyed,
  domain_deliveries, enqueue, enqueue_found, failure_body, failure_from, flush, no_check, prepare,
  raised_after, save_domain_delivery, try_apply,
}
use sose.Domain.Held.{raised_after_deliveries}
use sose.Domain.System.{Step, run, run-keeps, start}

save_domain_delivery-Unique :
    (x : DomainDelivery) (ds ds' : Deliveries)
    → save_domain_delivery x ds ≡ ok ds'
    → Unique ds
    → Unique ds'
unfolding save_domain_delivery
save_domain_delivery-Unique x ds ds' h u =
    let saved : ds' ≡ save x ds = ground arith in rw saved (Unique-save x ds u)

failure_from-Unique :
    (o : Option DomainDelivery) (x : DomainDelivery) (e : Error) (ds ds' : Deliveries)
    → failure_from o x e ds ≡ ok (tt, ds')
    → Unique ds
    → Unique ds'
failure_from-Unique none x e ds ds' h u = let kept : ds' ≡ ds = ground arith in rw kept u
failure_from-Unique (some y) x e ds ds' h u =
    let (ds'', saved, rest) = bind-eq-ok (save_domain_delivery _ ds) _ h in
    let kept : ds' ≡ ds'' = ground arith in rw kept (save_domain_delivery-Unique _ ds ds'' saved u)

acknowledged-Unique :
    (x : DomainDelivery) (ds : Deliveries) (o : Result DomainApplyResult × MemoryDomainWarehouse)
    → Unique ds
    → Unique (acknowledged x ds o).1.deliveries
acknowledged-Unique x ds (ok r, w) u = Unique-delete x.mutation.mutation_id ds u
acknowledged-Unique x ds (err e, w) u = rw raised_after_deliveries (
    transaction_cases (λ t. Unique t.1) no_check ds (failure_body x e) (λ y. u)
      λ _ ds' body _. failure_from-Unique (find x.mutation.mutation_id ds) x e ds ds' body u)

deliver-Unique :
    (broken : Option Error) (k : String) (d : Domain)
    → Unique d.deliveries
    → Unique (deliver broken k d).1.deliveries
unfolding deliver
deliver-Unique broken k d u = elim (Option-cases (find k d.deliveries)) [
  | inl gone ↦ rw (gone, deliver) u
  | inr (x, e) ↦
      rw (e, deliver)
        (acknowledged-Unique x d.deliveries (try_apply broken x.mutation d.warehouse) u)
]

enqueue_found-Unique :
    (o : Option DomainDelivery) (m : DomainMutation) (x : DomainDelivery) (ds ds' : Deliveries)
    → enqueue_found o m ds ≡ ok (x, ds')
    → Unique ds
    → Unique ds'
enqueue_found-Unique (some y) m x ds ds' h u = let kept : ds' ≡ ds = ground arith in rw kept u
enqueue_found-Unique none m x ds ds' h u =
    let (ds'', saved, rest) = bind-eq-ok (save_domain_delivery _ ds) _ h in
    let kept : ds' ≡ ds'' = ground arith in rw kept (save_domain_delivery-Unique _ ds ds'' saved u)

prepare-Unique :
    (m : DomainMutation) (d : Domain) → Unique d.deliveries → Unique (prepare m d).1.deliveries
unfolding prepare enqueue
prepare-Unique m d u =
    transaction_cases (λ o. Unique o.1) no_check d.deliveries (enqueue m) (λ e. u)
      λ x ds' body _.
        enqueue_found-Unique (find m.mutation_id d.deliveries) m x d.deliveries ds' body u

acknowledged-clears :
    (x : DomainDelivery) (ds : Deliveries) (o : Result DomainApplyResult × MemoryDomainWarehouse)
    (r : Option DomainApplyResult)
    → (acknowledged x ds o).0 ≡ ok r
    → (id : String) → (find id ds ≡ none) ⊎ (x.mutation.mutation_id ≡ id)
    → find id (acknowledged x ds o).1.deliveries ≡ none
acknowledged-clears x ds (ok s, w) r h id out =
    ground (arith, find-delete id x.mutation.mutation_id ds, eq_iff x.mutation.mutation_id id, out)
acknowledged-clears x ds (err e, w) r h id out =
    absurd (raised (transaction no_check (failure_body x e) ds) h)
  where
    raised : (t : Result (Unit {0}) × Deliveries) → ¬ ((raised_after e t w).0 ≡ ok r)
    raised (ok _, ds') f = cc
    raised (err y, ds') f = cc

-- A delivery that returns leaves nothing under its identity, and brings nothing in.
deliver-clears :
    (broken : Option Error) (k : String) (d : Domain) (r : Option DomainApplyResult)
    → (deliver broken k d).0 ≡ ok r
    → (id : String) → (find id d.deliveries ≡ none) ⊎ (k ≡ id)
    → find id (deliver broken k d).1.deliveries ≡ none
unfolding deliver
deliver-clears broken k d r = elim (Option-cases (find k d.deliveries)) [
  | inl gone ↦
      rw (gone, deliver)
        (λ h id out. elim out [
          | inl e ↦ e
          | inr same ↦ ap (λ z. find z d.deliveries) (sym same) ∙ gone
        ])
  | inr (x, e) ↦
      let key = find-key k d.deliveries x e in
      rw (e, deliver)
        (λ h id out.
          acknowledged-clears x d.deliveries (try_apply broken x.mutation d.warehouse) r h id
            (elim out [ inl f ↦ inl f | inr same ↦ inr (key ∙ same) ]))
]

deliver_all-clears :
    (broken : Option Error) (rows : List DomainDelivery) (d : Domain) (n : ℕ)
    → (deliver_all broken rows d).0 ≡ ok n
    → (id : String)
    → (find id d.deliveries ≡ none) ⊎ ((x : DomainDelivery) × (find id rows ≡ some x))
    → find id (deliver_all broken rows d).1.deliveries ≡ none
unfolding deliver_all find
deliver_all-clears broken [] d n = λ h id out. elim out [ inl gone ↦ gone | inr (x, e) ↦ absurd cc ]
deliver_all-clears broken (y ∷ rows) d n =
    elim (Result-cases (deliver broken y.mutation.mutation_id d).0) [
      | inl (e, raised) ↦ rw (raised, deliver_all) (λ h id out. cc)
      | inr (r, returned) ↦
          rw (returned, deliver_all)
            (λ h id out.
              let (m, counted, last) =
                bind-eq-ok (deliver_all broken rows (deliver broken y.mutation.mutation_id d).1).0 _
                  h in
              let clears = deliver-clears broken y.mutation.mutation_id d r returned id in
              deliver_all-clears broken rows (deliver broken y.mutation.mutation_id d).1 m counted
                id
                (elim out [
                  | inl gone ↦ inl (clears (inl gone))
                  | inr (x, e) ↦ elim (Bool-cases (str_eq y.mutation.mutation_id id)) [
                    | inl this ↦
                        inl (clears (inr (ground (arith, this, eq_iff y.mutation.mutation_id id))))
                    | inr other ↦ inr (x, ground (arith, other, e))
                  ]
                ]))
    ]

-- After any history, a flush that returns has taken every delivery out of the engine's table.
pub flush_drains :
    (steps : List Step) (broken : Option Error) (n : ℕ)
    → (flush broken (run start steps)).0 ≡ ok n
    → (id : String) → find id (flush broken (run start steps)).1.deliveries ≡ none
unfolding flush domain_deliveries
flush_drains steps broken n h id =
    let d = run start steps in
    let distinct =
      run-keeps (λ c. Unique c.deliveries) deliver-Unique prepare-Unique (λ x c u. u) start steps
        tt in
    deliver_all-clears broken (domain_deliveries d.deliveries) d n h id
      (elim (Option-cases (find id d.deliveries)) [
        | inl gone ↦ inl gone
        | inr (x, e) ↦ inr (
          x,
          find-sorted (λ a b. str_leb a.mutation.mutation_id b.mutation.mutation_id) id d.deliveries
                distinct
              ∙ e,
        )
      ])
