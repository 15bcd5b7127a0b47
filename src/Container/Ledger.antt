-- ===== src/Container/Ledger.antt =====
-- The level of a container is what the records of its operations lead to, in their order.
use sose.Prelude.{
  All, All-of_find, ap, true, Bool-cases, List, Option, Option-cases, String, [], arith, eq_iff,
  false, find, find-key, find-save, if◌then◌else◌, inl, inr, none, refl, save, some, subst, str_eq,
  ℕ, ◌++◌, ◌==◌, ◌∷◌, ◌∙◌, ◌≡◌,
}
use sose.Container.Records.{
  ContainerDefinition, ContainerOperationResult, ContainerState, Operation, definition_keyed,
  intent_keyed, result_keyed, state_keyed,
}
use sose.Container.Tables.{Containers}
use sose.Container.Manager.{Plan, commit, define, next_level, request}
use sose.Container.Define.{Defined, define_cases, request_cases}
use sose.Container.Commit.{Committed, IsPlan, commit_cases}
use sose.Container.Rebuild.{validate_result_record}
use sose.Container.Invariant.{Defined-stable, Inv}

-- The level of a container after a record, from the level before it: a record of another container
-- leaves it, and one that does not start and end where the operation does leads nowhere.
unfoldable pub moved : String → ℕ → ContainerOperationResult → Option ℕ
moved name level r =
    if str_eq r.container_name name
    then (if r.level_before == level
        then elim (next_level r.operation level r.amount) [
          | none ↦ none
          | some n ↦ if n == r.level_after then some n else none
        ]
        else none)
    else some level

-- The level that records lead to.
unfoldable pub replayed : String → ℕ → List ContainerOperationResult → Option ℕ
unfolding moved
replayed name level [] = some level
replayed name level (r ∷ records) = elim (moved name level r) [
  | none ↦ none
  | some n ↦ replayed name n records
]

abbrev pub Replayed : Containers → Type 0
Replayed c =
    (name : String) (d : ContainerDefinition) (s : ContainerState)
    → find name c.definitions ≡ some d
    → find name c.states ≡ some s
    → replayed name d.initial c.results ≡ some s.level

replayed-append :
    (name : String) (level n : ℕ) (records : List ContainerOperationResult)
    (r : ContainerOperationResult)
    → replayed name level records ≡ some n
    → replayed name level (records ++ r ∷ []) ≡ moved name n r
unfolding replayed
replayed-append name level n [] r h = elim (Option-cases (moved name n r)) [
  | inl nowhere ↦ ground (arith, h, nowhere)
  | inr (k, e) ↦ ground (arith, h, e)
]
replayed-append name level n (x ∷ records) r h = elim (Option-cases (moved name level x)) [
  | inl nowhere ↦ ground (arith, h, nowhere)
  | inr (k, e) ↦
      let rest : replayed name k records ≡ some n = ground (arith, h, e) in
      rw (e, replayed) (replayed-append name k n records r rest)
]

save_new :
    (r : ContainerOperationResult) (rows : List ContainerOperationResult)
    → find r.request_id rows ≡ none
    → save r rows ≡ rows ++ r ∷ []
unfolding find save
save_new r [] h = refl
save_new r (x ∷ rows) h = ground (arith, h, save_new r rows)

moved_elsewhere :
    (name : String) (level : ℕ) (r : ContainerOperationResult)
    → str_eq r.container_name name ≡ false
    → moved name level r ≡ some level
unfolding moved
moved_elsewhere name level r h = rw h refl

replayed_elsewhere :
    (name : String) (level : ℕ) (records : List ContainerOperationResult)
    → All (λ r. str_eq r.container_name name ≡ false) records
    → replayed name level records ≡ some level
unfolding replayed
replayed_elsewhere name level [] h = refl
replayed_elsewhere name level (r ∷ records) h =
    rw (moved_elsewhere name level r h.0, replayed) (replayed_elsewhere name level records h.1)

module _ (id : String) (p : Plan) (is : IsPlan id p) (c c' : Containers) (v : Inv c)
    (done : Committed p c c') where
  stored_last : c'.results ≡ c.results ++ p.result ∷ []
  stored_last =
      rw done.results
        (save_new p.result c.results (rw is.same_request (v.disjoint _ p.intent done.pending)))

  moved_here :
      (name : String)
      → str_eq p.result.container_name name ≡ true
      → moved name p.before.level p.result ≡ some p.after.level
  unfolding moved
  moved_here name here =
      ground (arith, here, is.from_level, is.to_level, is.same_operation, is.same_amount, is.level)

  Committed-Replayed : Replayed c → Replayed c'
  Committed-Replayed b name d s ed es = elim (Bool-cases (str_eq p.result.container_name name)) [
    | inl here ↦
        let same : p.after.level ≡ s.level = ground (
          arith,
          es,
          here,
          is.same_container,
          is.name,
          done.states,
          eq_iff p.after.name name,
          eq_iff p.result.container_name name,
          find-save name p.after c.states,
        ) in
        let before : replayed name d.initial c.results ≡ some p.before.level =
          b name d p.before (ground (arith, ed, done.definitions)) (
            ground (
              arith,
              here,
              is.same_container,
              done.unchanged,
              eq_iff p.result.container_name name,
            )) in
        rw (stored_last, ← same)
          (replayed-append name d.initial p.before.level c.results p.result before
            ∙ moved_here name here)
    | inr other ↦
        let before : replayed name d.initial c.results ≡ some s.level =
          b name d s (ground (arith, ed, done.definitions)) (
            ground (
              arith,
              es,
              other,
              is.same_container,
              is.name,
              done.states,
              eq_iff p.after.name name,
              find-save name p.after c.states,
            )) in
        rw stored_last (
          replayed-append name d.initial s.level c.results p.result before
          ∙ moved_elsewhere name s.level p.result other)
  ]

module _ (definition : ContainerDefinition) (st : ContainerState) (c c' : Containers) (v : Inv c)
    (q : Defined definition st c c') where
  -- A container that is not defined has no records.
  no_records :
      (name : String)
      → find name c.definitions ≡ none
      → All (λ r. str_eq r.container_name name ≡ false) c.results
  unfolding validate_result_record
  no_records name e =
      All-of_find _ c.results v.unique_results
        λ id r found. ground (arith, eq_iff r.container_name name, v.consistent id r)

  Defined-Replayed : Replayed c → Replayed c'
  Defined-Replayed b name d s ed es = elim (Option-cases (find name c.definitions)) [
    | inl new ↦
        let here : d.initial ≡ s.level = ground (
          arith,
          new,
          ed,
          es,
          q.name,
          q.level,
          q.definitions,
          q.states,
          find-save name definition c.definitions,
          find-save name st c.states,
        ) in
        rw (q.results, ← here) (replayed_elsewhere name d.initial c.results (no_records name new))
    | inr (e, found) ↦
        let (t, stored_there, fits) = v.leveled name e found in
        let key : e.name ≡ name = find-key name c.definitions e found in
        let stored : find name c.states ≡ some t =
          subst (λ k. find k c.states ≡ some t) key stored_there in
        let kept_definition : e ≡ d =
          ground
            (arith, q.definitions, found, ed, Defined-stable definition st c c' v q name e found) in
        let kept_state : t ≡ s = ground (
          arith,
          q.states,
          stored,
          es,
          key,
          q.name,
          eq_iff st.name name,
          q.same_state t,
          find-save name st c.states,
        ) in
        rw q.results (b name d s (found ∙ ap some kept_definition) (stored ∙ ap some kept_state))
  ]

pub define-Replayed :
    (definition : ContainerDefinition) (c : Containers)
    → Inv c
    → Replayed c
    → Replayed (define definition c).1
define-Replayed definition c v b =
    define_cases (λ o. Replayed o.1) definition c (λ e. b)
      (λ s c' q. Defined-Replayed definition s c c' v q b)

pub commit-Replayed :
    (seen : Containers) (id : String) (now : ℕ) (c : Containers)
    → Inv c
    → Replayed c
    → Replayed (commit seen id now c).1
commit-Replayed seen id now c v b =
    commit_cases (λ o. Replayed o.1) seen id now c v.disjoint (λ r e. b) (λ e. b) (λ r e. b)
      (λ p c' is done. Committed-Replayed id p is c c' v done b)

pub request-Replayed :
    (seen : Containers) (name id : String) (operation : Operation) (amount now : ℕ) (c : Containers)
    → Replayed c
    → Replayed (request seen name id operation amount now c).1
request-Replayed seen name id operation amount now c b =
    request_cases (λ o. Replayed o.1) seen name id operation amount now c (λ e. b)
      (λ i c' _ q. rw q.added b)
