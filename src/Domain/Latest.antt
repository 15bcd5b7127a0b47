-- ===== src/Domain/Latest.antt =====
-- What the warehouse holds, against what it has recorded.
use mathlib.Core.Option.{some-injective}
use sose.Prelude.{
  decided→eq, Bool-cases, Error, List, Option, Option-cases, Result, String, [], arith, decided,
  eq_iff, eq_refl, err, find, find-save, if◌then◌else◌, inl, inr, ltb, none, ok, refl, some, sym,
  str_eq, ◌&&◌, ◌<◌, ◌==◌, ◌≡◌, ◌≤◌, ◌∷◌,
}
use sose.Domain.Warehouse.{
  DomainApplyResult, DomainMutation, DomainMutation-discrete, Entity, Entity-discrete,
  MemoryDomainWarehouse, applied, apply, apply_new, find_entity, mutation_keyed, put_entity,
  recorded, replayed, superseded,
}

find_entity-put_entity :
    (kind id : String) (e : Entity) (rows : List Entity)
    → find_entity kind id (put_entity e rows)
      ≡ (if str_eq e.entity_type kind && str_eq e.id id then some e else find_entity kind id rows)
unfolding find_entity put_entity
find_entity-put_entity kind id e [] = refl
find_entity-put_entity kind id e (x ∷ rows) = ground (
  arith,
  eq_iff x.entity_type e.entity_type,
  eq_iff x.id e.id,
  eq_iff x.entity_type kind,
  eq_iff x.id id,
  eq_iff e.entity_type kind,
  eq_iff e.id id,
  find_entity-put_entity kind id e rows,
)

abbrev pub entity_of : DomainMutation → MemoryDomainWarehouse → Option Entity
entity_of m w = find_entity m.entity.entity_type m.entity.id w.entities

-- `apply` raises, knows the mutation, records it below what it has, or puts it in place.
module _ {ℓ} (P : Result DomainApplyResult × MemoryDomainWarehouse → Type ℓ) (m : DomainMutation)
    (w : MemoryDomainWarehouse) (raised : (e : Error) → P (err e, w))
    (known : find m.mutation_id w.mutations ≡ some m → P (ok replayed, w))
    (kept : (r : DomainApplyResult) (e : Entity)
      → find m.mutation_id w.mutations ≡ none
      → entity_of m w ≡ some e
      → m.entity.version ≤ e.version
      → (m.entity.version ≡ e.version → e ≡ m.entity)
      → P (ok r, recorded m w))
    (placed : find m.mutation_id w.mutations ≡ none
      → ((e : Entity) → entity_of m w ≡ some e → e.version < m.entity.version)
      → P (ok applied, record (recorded m w) { entities = put_entity m.entity w.entities })) where
  apply_new-cases :
      find m.mutation_id w.mutations ≡ none
      → (o : Option Entity) → entity_of m w ≡ o
      → P (apply_new m w o)
  apply_new-cases new none missing = placed new (λ e there. cc)
  apply_new-cases new (some e) there = elim (Bool-cases (ltb m.entity.version e.version)) [
    | inl older ↦
        rw (older, apply_new) (kept superseded e new there (ground arith) (λ same. ground arith))
    | inr not_older ↦ elim (Bool-cases (m.entity.version == e.version)) [
      | inr newer ↦
          rw (not_older, newer, apply_new)
            (placed new (λ x found. ground (arith, not_older, newer, found, there)))
      | inl equal ↦ elim (Bool-cases (decided (Entity-discrete m.entity e))) [
        | inr other ↦ rw (not_older, equal, other, apply_new) (raised _)
        | inl same ↦
            rw (not_older, equal, same, apply_new)
              (kept replayed e new there (ground arith)
                (λ v. sym (decided→eq (Entity-discrete m.entity e) same)))
      ]
    ]
  ]

  pub apply_cases : P (apply m w)
  unfolding apply
  apply_cases = elim (Option-cases (find m.mutation_id w.mutations)) [
    | inl new ↦ rw (new, apply) (apply_new-cases new (entity_of m w) refl)
    | inr (x, e) ↦ elim (Bool-cases (decided (DomainMutation-discrete x m))) [
      | inr other ↦ rw (e, other, apply) (raised _)
      | inl same ↦
          rw (e, same, apply) (known (rw (decided→eq (DomainMutation-discrete x m) same) at e))
    ]
  ]

-- For each recorded mutation the warehouse holds its entity at that version or a later one, and at
-- that version only as the mutation has it.
abbrev pub NotOlder : MemoryDomainWarehouse → Type 0
NotOlder w =
    (id : String) (m : DomainMutation)
    → find id w.mutations ≡ some m
    → (e : Entity) × (entity_of m w ≡ some e)
      × (m.entity.version ≤ e.version)
      × (m.entity.version ≡ e.version → e ≡ m.entity)

recorded-NotOlder :
    (m : DomainMutation) (w : MemoryDomainWarehouse) (e : Entity)
    → entity_of m w ≡ some e
    → m.entity.version ≤ e.version
    → (m.entity.version ≡ e.version → e ≡ m.entity)
    → NotOlder w
    → NotOlder (recorded m w)
recorded-NotOlder m w e there below same v id x found =
    elim (Bool-cases (str_eq m.mutation_id id)) [
      | inr other ↦ v id x (ground (arith, other, found, find-save id m w.mutations))
      | inl this ↦
          let equal : m ≡ x =
            some-injective _ _ (ground (arith, this, found, find-save id m w.mutations)) in
          rw (sym equal) (e, there, below, same)
    ]

placed-NotOlder :
    (m : DomainMutation) (w : MemoryDomainWarehouse)
    → ((e : Entity) → entity_of m w ≡ some e → e.version < m.entity.version)
    → NotOlder w
    → NotOlder (record (recorded m w) { entities = put_entity m.entity w.entities })
placed-NotOlder m w newer v id x found = elim (Bool-cases (str_eq m.mutation_id id)) [
  | inl this ↦
      let equal : m ≡ x =
        some-injective _ _ (ground (arith, this, found, find-save id m w.mutations)) in
      rw (sym equal) (
        m.entity,
        ground (
          arith,
          find_entity-put_entity m.entity.entity_type m.entity.id m.entity w.entities,
          eq_refl m.entity.entity_type,
          eq_refl m.entity.id,
        ),
        omega arith,
        λ s. refl,
      )
  | inr other ↦
      let (e, there, below, same) =
        v id x (ground (arith, other, found, find-save id m w.mutations)) in
      elim (Bool-cases
        (str_eq m.entity.entity_type x.entity.entity_type && str_eq m.entity.id x.entity.id)) [
          | inr apart ↦ (
            e,
            rw (find_entity-put_entity x.entity.entity_type x.entity.id m.entity w.entities, apart)
                there,
            below,
            same,
          )
          | inl here ↦
              let kind : m.entity.entity_type ≡ x.entity.entity_type =
                ground (arith, here, eq_iff m.entity.entity_type x.entity.entity_type) in
              let name : m.entity.id ≡ x.entity.id =
                ground (arith, here, eq_iff m.entity.id x.entity.id) in
              let above : e.version < m.entity.version = newer e (rw (kind, name) there) in
              (
                m.entity,
                rw
                    (
                      find_entity-put_entity x.entity.entity_type x.entity.id m.entity w.entities,
                      here,
                    )
                    refl,
                omega arith,
                λ s. absurd (omega arith),
              )
        ]
]

apply-NotOlder :
    (m : DomainMutation) (w : MemoryDomainWarehouse) → NotOlder w → NotOlder (apply m w).1
apply-NotOlder m w v =
    apply_cases (λ o. NotOlder o.1) m w (λ e. v) (λ known. v)
      (λ r e new there below same. recorded-NotOlder m w e there below same v)
      (λ new newer. placed-NotOlder m w newer v)

-- Every entity of the warehouse is that of a mutation that it has recorded.
abbrev pub FromRecorded : MemoryDomainWarehouse → Type 0
FromRecorded w =
    (kind id : String) (e : Entity)
    → find_entity kind id w.entities ≡ some e
    → (x : DomainMutation) × (find x.mutation_id w.mutations ≡ some x) × (x.entity ≡ e)

still_recorded :
    (m x : DomainMutation) (w : MemoryDomainWarehouse)
    → find m.mutation_id w.mutations ≡ none
    → find x.mutation_id w.mutations ≡ some x
    → find x.mutation_id (recorded m w).mutations ≡ some x
still_recorded m x w new known =
    ground
      (arith, find-save x.mutation_id m w.mutations, eq_iff m.mutation_id x.mutation_id, new, known)

recorded-FromRecorded :
    (m : DomainMutation) (w : MemoryDomainWarehouse)
    → find m.mutation_id w.mutations ≡ none
    → FromRecorded w
    → FromRecorded (recorded m w)
recorded-FromRecorded m w new v kind id e there =
    let (x, known, same) = v kind id e there in (x, still_recorded m x w new known, same)

placed-FromRecorded :
    (m : DomainMutation) (w : MemoryDomainWarehouse)
    → find m.mutation_id w.mutations ≡ none
    → FromRecorded w
    → FromRecorded (record (recorded m w) { entities = put_entity m.entity w.entities })
placed-FromRecorded m w new v kind id e there =
    elim (Bool-cases (str_eq m.entity.entity_type kind && str_eq m.entity.id id)) [
      | inl here ↦ (
        m,
        ground (arith, find-save m.mutation_id m w.mutations, eq_refl m.mutation_id),
        ground (arith, here, there, find_entity-put_entity kind id m.entity w.entities),
      )
      | inr other ↦
          let old : find_entity kind id w.entities ≡ some e =
            ground (arith, other, there, find_entity-put_entity kind id m.entity w.entities) in
          let (x, known, same) = v kind id e old in (x, still_recorded m x w new known, same)
    ]

apply-FromRecorded :
    (m : DomainMutation) (w : MemoryDomainWarehouse) → FromRecorded w → FromRecorded (apply m w).1
apply-FromRecorded m w v =
    apply_cases (λ o. FromRecorded o.1) m w (λ e. v) (λ known. v)
      (λ r e new there below same. recorded-FromRecorded m w new v)
      (λ new newer. placed-FromRecorded m w new v)

-- The warehouse holds exactly the latest of what it has recorded.
abbrev pub Latest : MemoryDomainWarehouse → Type 0
Latest w = NotOlder w × FromRecorded w

pub apply-Latest :
    (m : DomainMutation) (w : MemoryDomainWarehouse) → Latest w → Latest (apply m w).1
apply-Latest m w v = (apply-NotOlder m w v.0, apply-FromRecorded m w v.1)

-- A record of a mutation is never taken back or changed.
pub apply-keeps_mutation :
    (m : DomainMutation) (w : MemoryDomainWarehouse) (id : String) (x : DomainMutation)
    → find id w.mutations ≡ some x
    → find id (apply m w).1.mutations ≡ some x
apply-keeps_mutation m w id x h =
    apply_cases (λ o. find id o.1.mutations ≡ some x) m w (λ e. h) (λ known. h)
      (λ r e new there below same.
        ground (arith, find-save id m w.mutations, eq_iff m.mutation_id id, new, h))
      (λ new newer. ground (arith, find-save id m w.mutations, eq_iff m.mutation_id id, new, h))

-- What `apply` returns from, it has recorded.
pub apply-records :
    (m : DomainMutation) (w : MemoryDomainWarehouse) (r : DomainApplyResult)
    → (apply m w).0 ≡ ok r
    → find m.mutation_id (apply m w).1.mutations ≡ some m
apply-records m w r =
    apply_cases (λ o. o.0 ≡ ok r → find m.mutation_id o.1.mutations ≡ some m) m w (λ e h. cc)
      (λ known h. known)
      (λ s e new there below same h.
        ground (arith, find-save m.mutation_id m w.mutations, eq_refl m.mutation_id))
      (λ new newer h. ground (arith, find-save m.mutation_id m w.mutations, eq_refl m.mutation_id))
