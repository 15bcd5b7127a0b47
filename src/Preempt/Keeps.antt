-- ===== src/Preempt/Keeps.antt =====
-- Each method of the preemptive manager keeps the invariant of the tables.
use sose.Prelude.{
  Bool, Bool-cases, Option-cases, Result, String, arith, delete, differs, err, false, find, has,
  inl, inr, ok, plan_cases, save, transaction, transaction_cases, true, ℕ, ◌≡◌,
}
use sose.Preempt.Records.{
  PreemptiveResourceDefinition, PreemptiveResourceDefinition-discrete, PreemptiveResourceDemand,
  definition_keyed, demand_keyed, intent_keyed, reservation_keyed, result_keyed,
}
use sose.Preempt.Tables.{
  Preemptives, delete_preemptive_resource_demand, no_check, reserved,
  save_preemptive_resource_definition, save_preemptive_resource_demand,
}
use sose.Preempt.Manager.{
  Manager, cancel_body, cancel_pending, define, define_body, demand_body, demand_for,
  displaced_keyed, forgotten, granted_keyed, leased_keyed, on_tables, plan_request, request,
  submitted,
}
use sose.Preempt.Inv.{Inv}
use sose.Preempt.Invariant.{Asked-Inv, Cancelled-Inv, Defined-Inv}

-- Whatever a method answers, its tables meet the invariant.
abbrev pub Kept {ℓ} : {A : Type ℓ} → Result A × Manager → Type 0
Kept o = Inv o.1.tables

pub define-Inv : (d : PreemptiveResourceDefinition) (m : Manager) → Inv m.tables → Kept (define d m)
unfolding define save_preemptive_resource_definition
define-Inv d m v =
    transaction_cases (λ o. Kept (on_tables m o)) no_check m.tables (define_body d) (λ e. v)
      λ u c' body _.
        let saved : c' ≡ record m.tables { definitions = save d m.tables.definitions } =
          ground arith in
        let same_capacity : differs PreemptiveResourceDefinition-discrete
              (find d.name m.tables.definitions) d
            ≡ false =
          ground arith in
        rw saved (Defined-Inv d m.tables same_capacity v)

demand_body-Inv :
    (d d' : PreemptiveResourceDemand) (c c' : Preemptives)
    → demand_body d c ≡ ok (d', c')
    → Inv c
    → Inv c'
unfolding save_preemptive_resource_demand
demand_body-Inv d d' c c' h v =
    let saved : c' ≡ record c { demands = save d c.demands } = ground arith in
    let known : has d.resource_name c.definitions ≡ true = ground arith in
    let free : reserved d.request_id c.reservations ≡ false = ground arith in
    rw saved (Asked-Inv d c known free v)

pub request-Inv :
    (name id : String) (at prio : ℕ) (preempt : Bool) (m : Manager)
    → Inv m.tables
    → Kept (request name id at prio preempt m)
unfolding request
request-Inv name id at prio preempt m v =
    plan_cases (λ o. Kept o) (plan_request m.tables name id at prio preempt) (λ e. (err e, m))
      (λ d. submitted (on_tables m (transaction no_check (demand_body d) m.tables))) (λ e. v)
      λ d planned.
        transaction_cases (λ o. Kept (submitted (on_tables m o))) no_check m.tables (demand_body d)
          (λ e. v) λ d' c' body _. demand_body-Inv d d' m.tables c' body v

cancel_body-Inv :
    (d : PreemptiveResourceDemand) (b : Bool) (c c' : Preemptives)
    → cancel_body d c ≡ ok (b, c')
    → Inv c
    → Inv c'
unfolding delete_preemptive_resource_demand
cancel_body-Inv d b c c' h v =
    let deleted : c' ≡ record c { demands = delete d.request_id c.demands } = ground arith in
    rw deleted (Cancelled-Inv d.request_id c v)

pub cancel_pending-Inv :
    (cancelled : Bool) (id : String) (m : Manager)
    → Inv m.tables
    → Kept (cancel_pending cancelled id m)
unfolding cancel_pending
cancel_pending-Inv cancelled id m v = elim (Option-cases (demand_for m.tables id)) [
  | inl missing ↦ rw (missing, cancel_pending) v
  | inr (d, e) ↦ elim (Bool-cases cancelled) [
    | inr refused ↦ rw (e, refused, cancel_pending) v
    | inl agreed ↦
        rw (e, agreed, cancel_pending)
          (transaction_cases (λ o. Kept (forgotten id (on_tables m o))) no_check m.tables
            (cancel_body d) (λ x. v) λ b c' body _. cancel_body-Inv d b m.tables c' body v)
  ]
]
